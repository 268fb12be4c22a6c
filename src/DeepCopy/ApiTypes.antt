-- ===== src/DeepCopy/ApiTypes.antt =====
-- All the types of the API, with the function `DeepCopy` of each.
use kube_drift.Common.{List, Text}
use kube_drift.Api
use kube_drift.DeepCopy.{Pointer, Alloc, Kind, Library}
use kube_drift.DeepCopy.Named.{
  copy_config_map_source, copy_drift_summary, copy_drifted_resource, copy_git_auth,
  copy_local_secret_ref, copy_secret_key_ref, deep_copy_config_map_source,
  deep_copy_object_drift_check, deep_copy_object_drift_check_list, deep_copy_drift_check_spec,
  deep_copy_drift_check_status, deep_copy_drift_summary, deep_copy_drifted_resource,
  deep_copy_git_auth, deep_copy_git_source, deep_copy_helm_source, deep_copy_kustomize_source,
  deep_copy_local_secret_ref, deep_copy_notify_spec, deep_copy_secret_key_ref, deep_copy_source,
  deep_copy_target, deep_copy_webhook,
}
use kube_drift.DeepCopy.Kinds.{flat}
use kube_drift.DeepCopy.Values.{
  drift_check_list_kind, drift_check_spec_kind, drift_check_status_kind, drift_check_kind,
  git_source_kind, helm_source_kind, kustomize_source_kind, notify_spec_kind, source_kind,
  target_kind, webhook_kind,
}

pub data ApiType : Type 0 where
  config_map_source drift_check drift_check_list drift_check_spec drift_check_status : ApiType
  drift_summary drifted_resource git_auth git_source helm_source kustomize_source : ApiType
  local_secret_ref notify_spec secret_key_ref source target webhook : ApiType

abbrev pub Value : ApiType → Type 0
Value config_map_source = Api.ConfigMapSource
Value drift_check = Api.DriftCheck
Value drift_check_list = Text × List Api.DriftCheck
Value drift_check_spec = Api.DriftCheckSpec
Value drift_check_status = Api.DriftCheckStatus
Value drift_summary = Api.DriftSummary
Value drifted_resource = Api.DriftedResource
Value git_auth = Api.GitAuth
Value git_source = Api.GitSource
Value helm_source = Api.HelmSource
Value kustomize_source = Api.KustomizeSource
Value local_secret_ref = Api.LocalSecretRef
Value notify_spec = Api.NotifySpec
Value secret_key_ref = Api.SecretKeyRef
Value source = Api.Source
Value target = Api.Target
Value webhook = Api.Webhook

abbrev simple : (A : Type 0) → (A → Alloc A) → Kind A
simple A copy = record (flat A) { deep_copy = copy }

abbrev pub kind : (L : Library) → (t : ApiType) → Kind (Value t)
kind L config_map_source = simple Api.ConfigMapSource copy_config_map_source
kind L drift_check = drift_check_kind L
kind L drift_check_list = drift_check_list_kind L
kind L drift_check_spec = drift_check_spec_kind L
kind L drift_check_status = drift_check_status_kind L
kind L drift_summary = simple Api.DriftSummary copy_drift_summary
kind L drifted_resource = simple Api.DriftedResource copy_drifted_resource
kind L git_auth = simple Api.GitAuth copy_git_auth
kind L git_source = git_source_kind
kind L helm_source = helm_source_kind L
kind L kustomize_source = kustomize_source_kind
kind L local_secret_ref = simple Api.LocalSecretRef copy_local_secret_ref
kind L notify_spec = notify_spec_kind
kind L secret_key_ref = simple Api.SecretKeyRef copy_secret_key_ref
kind L source = source_kind L
kind L target = target_kind L
kind L webhook = webhook_kind

-- `DeepCopyObject` of the two objects, which is by way of their `DeepCopy`.
abbrev pub deep_copy_of :
    (L : Library) → (t : ApiType) → Pointer (kind L t).Object → Alloc (Pointer (kind L t).Object)
deep_copy_of L config_map_source = deep_copy_config_map_source
deep_copy_of L drift_check = deep_copy_object_drift_check L
deep_copy_of L drift_check_list = deep_copy_object_drift_check_list L
deep_copy_of L drift_check_spec = deep_copy_drift_check_spec L
deep_copy_of L drift_check_status = deep_copy_drift_check_status L
deep_copy_of L drift_summary = deep_copy_drift_summary
deep_copy_of L drifted_resource = deep_copy_drifted_resource
deep_copy_of L git_auth = deep_copy_git_auth
deep_copy_of L git_source = deep_copy_git_source
deep_copy_of L helm_source = deep_copy_helm_source L
deep_copy_of L kustomize_source = deep_copy_kustomize_source
deep_copy_of L local_secret_ref = deep_copy_local_secret_ref
deep_copy_of L notify_spec = deep_copy_notify_spec
deep_copy_of L secret_key_ref = deep_copy_secret_key_ref
deep_copy_of L source = deep_copy_source L
deep_copy_of L target = deep_copy_target L
deep_copy_of L webhook = deep_copy_webhook
