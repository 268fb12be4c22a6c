-- ===== src/DeepCopy/Copies.antt =====
-- The functions of api/v1alpha1/zz_generated.deepcopy.go. `*out = *in` is the object itself, with all
-- its addresses; each step behind it replaces a field.
use kube_drift.Common.{none, some, List, [], ◌∷◌}
use kube_drift.DeepCopy.{Pointer, Slice, Alloc, pure, ◌>>=◌, allocate, Library}
use kube_drift.DeepCopy.Objects.{
  GitSource, KustomizeSource, Webhook, NotifySpec, HelmSource, Source, Target, DriftCheckSpec,
  DriftCheckStatus, DriftCheck, DriftCheckList,
}

module _ {A : Type 0} (copy : A → Alloc A) where
  -- `if in.F != nil { *out = new(T); (*in).DeepCopyInto(*out) }`
  unfoldable pub copy_pointer : Pointer A → Alloc (Pointer A)
  copy_pointer none = pure none
  copy_pointer (some (address, x)) = do fresh ← allocate; y ← copy x; pure (some (fresh, y))

  -- The loop over a slice.
  unfoldable pub copy_all : List A → Alloc (List A)
  copy_all [] = pure []
  copy_all (x ∷ xs) = do y ← copy x; ys ← copy_all xs; pure (y ∷ ys)

  -- `if in.F != nil { *out = make([]T, len(*in)); for i := range *in { ... } }`
  unfoldable pub copy_slice : Slice A → Alloc (Slice A)
  unfolding copy_all
  copy_slice none = pure none
  copy_slice (some (address, xs)) = do fresh ← allocate; ys ← copy_all xs; pure (some (fresh, ys))

  -- `DeepCopy` of any type.
  unfoldable pub deep_copy : Pointer A → Alloc (Pointer A)
  unfolding copy_pointer
  deep_copy none = pure none
  deep_copy (some in_) = copy_pointer (some in_)

-- `**out = **in`, or `copy` of an entry of a slice: a value without pointers.
unfoldable pub copy_flat : {A : Type 0} → A → Alloc A
copy_flat a = pure a

unfoldable pub copy_git_source : GitSource → Alloc GitSource
unfolding copy_pointer copy_flat
copy_git_source in_ = do auth ← copy_pointer copy_flat in_.auth; pure (record in_ { auth = auth })

unfoldable pub copy_kustomize_source : KustomizeSource → Alloc KustomizeSource
unfolding copy_git_source
copy_kustomize_source in_ = do git ← copy_git_source in_.git; pure (record in_ { git = git })

unfoldable pub copy_webhook : Webhook → Alloc Webhook
unfolding copy_pointer copy_flat
copy_webhook in_ = do
  url_secret_ref ← copy_pointer copy_flat in_.url_secret_ref
  pure (record in_ { url_secret_ref = url_secret_ref })

unfoldable pub copy_notify_spec : NotifySpec → Alloc NotifySpec
unfolding copy_slice copy_webhook
copy_notify_spec in_ = do
  webhooks ← copy_slice copy_webhook in_.webhooks
  pure (record in_ { webhooks = webhooks })

module _ (L : Library) where
  unfoldable pub copy_helm_source : HelmSource L → Alloc (HelmSource L)
  unfolding copy_git_source copy_pointer copy_slice copy_flat
  copy_helm_source in_ = do
    git ← copy_git_source in_.git
    values ← copy_pointer L.json.deep_copy in_.values
    values_files ← copy_slice copy_flat in_.values_files
    pure (record in_ { git = git; values = values; values_files = values_files })

  unfoldable pub copy_source : Source L → Alloc (Source L)
  unfolding copy_helm_source copy_kustomize_source
  copy_source in_ = do
    git ← copy_pointer copy_git_source in_.git
    config_map ← copy_pointer copy_flat in_.config_map
    helm ← copy_pointer copy_helm_source in_.helm
    kustomize ← copy_pointer copy_kustomize_source in_.kustomize
    pure (record in_ { git = git; config_map = config_map; helm = helm; kustomize = kustomize })

  unfoldable pub copy_target : Target L → Alloc (Target L)
  unfolding copy_pointer copy_slice copy_flat
  copy_target in_ = do
    namespaces ← copy_slice copy_flat in_.namespaces
    label_selector ← copy_pointer L.label_selector.deep_copy in_.label_selector
    pure (record in_ { namespaces = namespaces; label_selector = label_selector })

  unfoldable pub copy_drift_check_spec : DriftCheckSpec L → Alloc (DriftCheckSpec L)
  unfolding copy_source copy_target copy_notify_spec
  copy_drift_check_spec in_ = do
    source ← copy_source in_.source
    target ← copy_target in_.target
    notify ← copy_pointer copy_notify_spec in_.notify
    pure (record in_ { source = source; target = target; notify = notify })

  -- `(*in).DeepCopy()` of a time allocates it too.
  unfoldable pub copy_drift_check_status : DriftCheckStatus L → Alloc (DriftCheckStatus L)
  unfolding copy_pointer copy_slice copy_flat
  copy_drift_check_status in_ = do
    last_checked_at ← copy_pointer L.time.deep_copy in_.last_checked_at
    drifted_resources ← copy_slice copy_flat in_.drifted_resources
    conditions ← copy_slice L.condition.deep_copy in_.conditions
    pure (record in_ {
      last_checked_at = last_checked_at;
      drifted_resources = drifted_resources;
      conditions = conditions;
    })

  unfoldable pub copy_drift_check : DriftCheck L → Alloc (DriftCheck L)
  unfolding copy_drift_check_spec copy_drift_check_status
  copy_drift_check in_ = do
    object_meta ← L.object_meta.deep_copy in_.object_meta
    spec ← copy_drift_check_spec in_.spec
    status ← copy_drift_check_status in_.status
    pure (record in_ { object_meta = object_meta; spec = spec; status = status })

  unfoldable pub copy_drift_check_list : DriftCheckList L → Alloc (DriftCheckList L)
  unfolding copy_drift_check copy_slice
  copy_drift_check_list in_ = do
    list_meta ← L.list_meta.deep_copy in_.list_meta
    items ← copy_slice copy_drift_check in_.items
    pure (record in_ { list_meta = list_meta; items = items })
