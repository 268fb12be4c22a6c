-- ===== src/DeepCopy/Objects.antt =====
-- The types of api/v1alpha1/types.go in memory, less the TypeMeta of the two objects, which is two
-- strings. A type without pointers is the one of Api.
use kube_drift.Common.{ℕ, Bool, Text}
use kube_drift.Api
use kube_drift.Api.{ℤ}
use kube_drift.DeepCopy.{Pointer, Slice, Library}

pub record GitSource : Type 0 where
  pub url : Text
  pub ref : Text
  pub path : Text
  pub auth : Pointer Api.GitAuth

pub record KustomizeSource : Type 0 where
  pub git : GitSource

pub record Webhook : Type 0 where
  pub type : Api.WebhookType
  pub url : Text
  pub url_secret_ref : Pointer Api.SecretKeyRef

pub record NotifySpec : Type 0 where
  pub webhooks : Slice Webhook

pub record HelmSource (L : Library) : Type 0 where
  pub git : GitSource
  pub release_name : Text
  pub namespace : Text
  pub values : Pointer L.json.Object
  pub values_files : Slice Text
  pub dependency_build : Bool

pub record Source (L : Library) : Type 0 where
  pub type : Api.SourceType
  pub git : Pointer GitSource
  pub config_map : Pointer Api.ConfigMapSource
  pub helm : Pointer (HelmSource L)
  pub kustomize : Pointer KustomizeSource

pub record Target (L : Library) : Type 0 where
  pub namespaces : Slice Text
  pub label_selector : Pointer L.label_selector.Object

pub record DriftCheckSpec (L : Library) : Type 0 where
  pub source : Source L
  pub target : Target L
  pub interval : ℤ
  pub notify : Pointer NotifySpec

pub record DriftCheckStatus (L : Library) : Type 0 where
  pub last_checked_at : Pointer L.time.Object
  pub drifted_resources : Slice Api.DriftedResource
  pub summary : Api.DriftSummary
  pub observed_generation : ℕ
  pub last_notified_hash : Text
  pub conditions : Slice L.condition.Object

pub record DriftCheck (L : Library) : Type 0 where
  pub object_meta : L.object_meta.Object
  pub spec : DriftCheckSpec L
  pub status : DriftCheckStatus L

pub record DriftCheckList (L : Library) : Type 0 where
  pub list_meta : L.list_meta.Object
  pub items : Slice (DriftCheck L)
