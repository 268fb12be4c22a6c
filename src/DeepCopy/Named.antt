-- ===== src/DeepCopy/Named.antt =====
-- `DeepCopyInto` of the types without pointers, and the `DeepCopy` of every type of
-- api/v1alpha1/zz_generated.deepcopy.go, each by its name.
use kube_drift.Api
use kube_drift.DeepCopy.{Pointer, Alloc, pure, ◌>>=◌, Library}
use kube_drift.DeepCopy.Objects.{
  GitSource, KustomizeSource, Webhook, NotifySpec, HelmSource, Source, Target, DriftCheckSpec,
  DriftCheckStatus, DriftCheck, DriftCheckList,
}
use kube_drift.DeepCopy.Copies.{
  copy_flat, copy_git_source, copy_kustomize_source, copy_webhook, copy_notify_spec,
  copy_helm_source, copy_source, copy_target, copy_drift_check_spec, copy_drift_check_status,
  copy_drift_check, copy_drift_check_list, deep_copy,
}

unfoldable pub copy_config_map_source : Api.ConfigMapSource → Alloc Api.ConfigMapSource
unfolding copy_flat
copy_config_map_source in_ = copy_flat in_

unfoldable pub copy_drift_summary : Api.DriftSummary → Alloc Api.DriftSummary
unfolding copy_flat
copy_drift_summary in_ = copy_flat in_

unfoldable pub copy_drifted_resource : Api.DriftedResource → Alloc Api.DriftedResource
unfolding copy_flat
copy_drifted_resource in_ = copy_flat in_

unfoldable pub copy_git_auth : Api.GitAuth → Alloc Api.GitAuth
unfolding pure
copy_git_auth in_ = pure (record in_ { secret_ref = in_.secret_ref })

unfoldable pub copy_local_secret_ref : Api.LocalSecretRef → Alloc Api.LocalSecretRef
unfolding copy_flat
copy_local_secret_ref in_ = copy_flat in_

unfoldable pub copy_secret_key_ref : Api.SecretKeyRef → Alloc Api.SecretKeyRef
unfolding copy_flat
copy_secret_key_ref in_ = copy_flat in_

unfoldable pub deep_copy_config_map_source :
    Pointer Api.ConfigMapSource → Alloc (Pointer Api.ConfigMapSource)
unfolding copy_config_map_source deep_copy
deep_copy_config_map_source in_ = deep_copy copy_config_map_source in_

unfoldable pub deep_copy_drift_summary : Pointer Api.DriftSummary → Alloc (Pointer Api.DriftSummary)
unfolding copy_drift_summary deep_copy
deep_copy_drift_summary in_ = deep_copy copy_drift_summary in_

unfoldable pub deep_copy_drifted_resource :
    Pointer Api.DriftedResource → Alloc (Pointer Api.DriftedResource)
unfolding copy_drifted_resource deep_copy
deep_copy_drifted_resource in_ = deep_copy copy_drifted_resource in_

unfoldable pub deep_copy_git_auth : Pointer Api.GitAuth → Alloc (Pointer Api.GitAuth)
unfolding copy_git_auth deep_copy
deep_copy_git_auth in_ = deep_copy copy_git_auth in_

unfoldable pub deep_copy_git_source : Pointer GitSource → Alloc (Pointer GitSource)
unfolding copy_git_source deep_copy
deep_copy_git_source in_ = deep_copy copy_git_source in_

unfoldable pub deep_copy_kustomize_source :
    Pointer KustomizeSource → Alloc (Pointer KustomizeSource)
unfolding copy_kustomize_source deep_copy
deep_copy_kustomize_source in_ = deep_copy copy_kustomize_source in_

unfoldable pub deep_copy_local_secret_ref :
    Pointer Api.LocalSecretRef → Alloc (Pointer Api.LocalSecretRef)
unfolding copy_local_secret_ref deep_copy
deep_copy_local_secret_ref in_ = deep_copy copy_local_secret_ref in_

unfoldable pub deep_copy_notify_spec : Pointer NotifySpec → Alloc (Pointer NotifySpec)
unfolding copy_notify_spec deep_copy
deep_copy_notify_spec in_ = deep_copy copy_notify_spec in_

unfoldable pub deep_copy_secret_key_ref :
    Pointer Api.SecretKeyRef → Alloc (Pointer Api.SecretKeyRef)
unfolding copy_secret_key_ref deep_copy
deep_copy_secret_key_ref in_ = deep_copy copy_secret_key_ref in_

unfoldable pub deep_copy_webhook : Pointer Webhook → Alloc (Pointer Webhook)
unfolding copy_webhook deep_copy
deep_copy_webhook in_ = deep_copy copy_webhook in_

module _ (L : Library) where
  unfoldable pub deep_copy_drift_check : Pointer (DriftCheck L) → Alloc (Pointer (DriftCheck L))
  unfolding copy_drift_check deep_copy
  deep_copy_drift_check in_ = deep_copy (copy_drift_check L) in_

  unfoldable pub deep_copy_drift_check_list :
      Pointer (DriftCheckList L) → Alloc (Pointer (DriftCheckList L))
  unfolding copy_drift_check_list deep_copy
  deep_copy_drift_check_list in_ = deep_copy (copy_drift_check_list L) in_

  unfoldable pub deep_copy_drift_check_spec :
      Pointer (DriftCheckSpec L) → Alloc (Pointer (DriftCheckSpec L))
  unfolding copy_drift_check_spec deep_copy
  deep_copy_drift_check_spec in_ = deep_copy (copy_drift_check_spec L) in_

  unfoldable pub deep_copy_drift_check_status :
      Pointer (DriftCheckStatus L) → Alloc (Pointer (DriftCheckStatus L))
  unfolding copy_drift_check_status deep_copy
  deep_copy_drift_check_status in_ = deep_copy (copy_drift_check_status L) in_

  unfoldable pub deep_copy_helm_source : Pointer (HelmSource L) → Alloc (Pointer (HelmSource L))
  unfolding copy_helm_source deep_copy
  deep_copy_helm_source in_ = deep_copy (copy_helm_source L) in_

  unfoldable pub deep_copy_source : Pointer (Source L) → Alloc (Pointer (Source L))
  unfolding copy_source deep_copy
  deep_copy_source in_ = deep_copy (copy_source L) in_

  unfoldable pub deep_copy_target : Pointer (Target L) → Alloc (Pointer (Target L))
  unfolding copy_target deep_copy
  deep_copy_target in_ = deep_copy (copy_target L) in_

  unfoldable pub deep_copy_object_drift_check :
      Pointer (DriftCheck L) → Alloc (Pointer (DriftCheck L))
  unfolding deep_copy_drift_check
  deep_copy_object_drift_check in_ = do c ← deep_copy_drift_check in_; pure c

  unfoldable pub deep_copy_object_drift_check_list :
      Pointer (DriftCheckList L) → Alloc (Pointer (DriftCheckList L))
  unfolding deep_copy_drift_check_list
  deep_copy_object_drift_check_list in_ = do c ← deep_copy_drift_check_list in_; pure c
