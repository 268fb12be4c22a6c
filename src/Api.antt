-- ===== src/Api.antt =====
-- api/v1alpha1/types.go: the DriftCheck resource. A pointer is an option. A string type with
-- constants is a data type whose `other` holds every other string that the API server may keep.
use kube_drift.Common.{ℕ, Bool, Option, List, Text, text}

-- A signed integer: `negsuc n` is -(n + 1).
pub data ℤ : Type 0 where
  pos : ℕ → ℤ
  negsuc : ℕ → ℤ

pub data SourceType : Type 0 where
  git config_map helm kustomize : SourceType
  other : Text → SourceType

pub data GitAuthType : Type 0 where
  basic bearer ssh : GitAuthType
  other : Text → GitAuthType

pub record LocalSecretRef : Type 0 where
  pub name : Text

-- The reference to credentials; what they resolve to is `Source.GitAuth`.
pub record GitAuth : Type 0 where
  pub type : GitAuthType
  pub secret_ref : LocalSecretRef

pub record GitSource : Type 0 where
  pub url : Text
  pub ref : Text
  pub path : Text
  pub auth : Option GitAuth

pub record ConfigMapSource : Type 0 where
  pub name : Text
  pub namespace : Text
  pub key : Text

-- `values` is the raw JSON of `Values`.
pub record HelmSource : Type 0 where
  pub git : GitSource
  pub release_name : Text
  pub namespace : Text
  pub values : Option Text
  pub values_files : List Text
  pub dependency_build : Bool

pub record KustomizeSource : Type 0 where
  pub git : GitSource

pub record Source : Type 0 where
  pub type : SourceType
  pub git : Option GitSource
  pub config_map : Option ConfigMapSource
  pub helm : Option HelmSource
  pub kustomize : Option KustomizeSource

pub data WebhookType : Type 0 where
  slack generic : WebhookType
  other : Text → WebhookType

pub record SecretKeyRef : Type 0 where
  pub name : Text
  pub key : Text

pub record Webhook : Type 0 where
  pub type : WebhookType
  pub url : Text
  pub url_secret_ref : Option SecretKeyRef

pub record NotifySpec : Type 0 where
  pub webhooks : List Webhook

-- metav1.LabelSelector
pub record Requirement : Type 0 where
  pub key : Text
  pub operator : Text
  pub values : List Text

pub record LabelSelector : Type 0 where
  pub match_labels : List (Text × Text)
  pub match_expressions : List Requirement

pub record Target : Type 0 where
  pub namespaces : List Text
  pub label_selector : Option LabelSelector

-- The interval is a time.Duration, in nanoseconds.
pub record DriftCheckSpec : Type 0 where
  pub source : Source
  pub target : Target
  pub interval : ℤ
  pub notify : Option NotifySpec

-- DriftStatus keeps its strings: they are hashed and sent.
abbrev pub DriftStatus : Type 0
DriftStatus = Text

abbrev pub drift_unchanged : DriftStatus
drift_unchanged = text "unchanged"

abbrev pub drift_changed : DriftStatus
drift_changed = text "changed"

abbrev pub drift_new : DriftStatus
drift_new = text "new"

abbrev pub drift_deleted : DriftStatus
drift_deleted = text "deleted"

pub record DriftedResource : Type 0 where
  pub api_version : Text
  pub kind : Text
  pub name : Text
  pub namespace : Text
  pub status : DriftStatus

pub record DriftSummary : Type 0 where
  pub changed : ℕ
  pub new : ℕ
  pub deleted : ℕ
  pub unchanged : ℕ

-- metav1.Condition, less its LastTransitionTime, which only the library sets.
pub record Condition : Type 0 where
  pub type : Text
  pub status : Text
  pub reason : Text
  pub message : Text
  pub observed_generation : ℕ

pub record DriftCheckStatus : Type 0 where
  pub last_checked_at : Option ℕ
  pub drifted_resources : List DriftedResource
  pub summary : DriftSummary
  pub observed_generation : ℕ
  pub last_notified_hash : Text
  pub conditions : List Condition

-- The resource, with what the program reads of its ObjectMeta.
pub record DriftCheck : Type 0 where
  pub name : Text
  pub namespace : Text
  pub generation : ℕ
  pub resource_version : Text
  pub spec : DriftCheckSpec
  pub status : DriftCheckStatus
