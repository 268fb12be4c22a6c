-- ===== src/DeepCopy/Independence/Everywhere.antt =====
-- The deep copies of every type of api/v1alpha1/zz_generated.deepcopy.go stand for the same and share
-- nothing.
use kube_drift.Common.{ℕ, ◌<◌, ◌≡◌, refl, ◌≢◌, none, some, List, [], ◌∷◌, All, arith}
use kube_drift.DeepCopy.{Pointer, pure, ◌>>=◌, Kind, Library}
use kube_drift.DeepCopy.Copies.{copy_flat, copy_pointer, deep_copy}
use kube_drift.DeepCopy.Named.{
  copy_config_map_source, copy_drift_summary, copy_drifted_resource, copy_git_auth,
  copy_local_secret_ref, copy_secret_key_ref, deep_copy_config_map_source, deep_copy_drift_check,
  deep_copy_drift_check_list, deep_copy_drift_check_spec, deep_copy_drift_check_status,
  deep_copy_drift_summary, deep_copy_drifted_resource, deep_copy_git_auth, deep_copy_git_source,
  deep_copy_helm_source, deep_copy_kustomize_source, deep_copy_local_secret_ref,
  deep_copy_notify_spec, deep_copy_secret_key_ref, deep_copy_source, deep_copy_target,
  deep_copy_webhook, deep_copy_object_drift_check, deep_copy_object_drift_check_list,
}
use kube_drift.DeepCopy.ApiTypes.{
  ApiType, config_map_source, drift_check, drift_check_list, drift_check_spec, drift_check_status,
  drift_summary, drifted_resource, git_auth, git_source, helm_source, kustomize_source,
  local_secret_ref, notify_spec, secret_key_ref, source, target, webhook, kind, deep_copy_of,
}
use kube_drift.DeepCopy.Kinds.{pointer}
use kube_drift.DeepCopy.Independence.{
  IsWithin, Apart, AllDistinct, IsDeep, flat-IsDeep, pointer-IsDeep,
}
use kube_drift.DeepCopy.Independence.Types.{
  LibraryIsDeep, drift_check_kind-IsDeep, drift_check_list_kind-IsDeep,
  drift_check_spec_kind-IsDeep, drift_check_status_kind-IsDeep, git_source_kind-IsDeep,
  helm_source_kind-IsDeep, kustomize_source_kind-IsDeep, notify_spec_kind-IsDeep,
  source_kind-IsDeep, target_kind-IsDeep, webhook_kind-IsDeep,
}

-- The second object stands for the same, shares nothing with the first, and nothing within itself.
abbrev pub IsCopy : {V : Type 0} → (K : Kind V) → K.Object → K.Object → Type 0
IsCopy K x y =
    (K.value y ≡ K.value x) × Apart (K.addresses y) (K.addresses x) × AllDistinct (K.addresses y)

later_than : (n m x : ℕ) (ys : List ℕ) → IsWithin n m x → All (λ y. y < n) ys → All (λ y. x ≢ y) ys
later_than n m x [] hx h = tt
later_than n m x (y ∷ ys) hx h = (λ e. omega (arith, e, hx.0, h.0), later_than n m x ys hx h.1)

later-Apart : (n m : ℕ) (xs ys : List ℕ) → All (IsWithin n m) xs → All (λ y. y < n) ys → Apart xs ys
later-Apart n m [] ys hx h = tt
later-Apart n m (x ∷ xs) ys hx h = (later_than n m x ys hx.0 h, later-Apart n m xs ys hx.1 h)

deep_copy-IsCopy :
    {V : Type 0} {K : Kind V} (d : IsDeep K) (x : Pointer K.Object) (n : ℕ)
    → All (λ a. a < n) ((pointer K).addresses x)
    → IsCopy (pointer K) x (deep_copy K.deep_copy x n).0
unfolding pure copy_pointer deep_copy
deep_copy-IsCopy d none n old = (refl, tt, tt)
deep_copy-IsCopy {K = K} d (some c) n old =
    let e = pointer-IsDeep d in
    let (y, m) = copy_pointer K.deep_copy (some c) n in
    (
      e.same (some c) n,
      later-Apart n m ((pointer K).addresses y) ((pointer K).addresses (some c))
          (e.fresh (some c) n) old,
      e.distinct (some c) n,
    )

kind-IsDeep : (L : Library) → LibraryIsDeep L → (t : ApiType) → IsDeep (kind L t)
unfolding pure copy_flat copy_config_map_source copy_drift_summary copy_drifted_resource
    copy_git_auth copy_local_secret_ref copy_secret_key_ref
kind-IsDeep L deep config_map_source = flat-IsDeep _
kind-IsDeep L deep drift_check = drift_check_kind-IsDeep L deep
kind-IsDeep L deep drift_check_list = drift_check_list_kind-IsDeep L deep
kind-IsDeep L deep drift_check_spec = drift_check_spec_kind-IsDeep L deep
kind-IsDeep L deep drift_check_status = drift_check_status_kind-IsDeep L deep
kind-IsDeep L deep drift_summary = flat-IsDeep _
kind-IsDeep L deep drifted_resource = flat-IsDeep _
kind-IsDeep L deep git_auth = flat-IsDeep _
kind-IsDeep L deep git_source = git_source_kind-IsDeep
kind-IsDeep L deep helm_source = helm_source_kind-IsDeep L deep
kind-IsDeep L deep kustomize_source = kustomize_source_kind-IsDeep
kind-IsDeep L deep local_secret_ref = flat-IsDeep _
kind-IsDeep L deep notify_spec = notify_spec_kind-IsDeep
kind-IsDeep L deep secret_key_ref = flat-IsDeep _
kind-IsDeep L deep source = source_kind-IsDeep L deep
kind-IsDeep L deep target = target_kind-IsDeep L deep
kind-IsDeep L deep webhook = webhook_kind-IsDeep

deep_copy_lem :
    (L : Library) (t : ApiType) (x : Pointer (kind L t).Object) (n : ℕ)
    → deep_copy_of L t x n ≡ deep_copy (kind L t).deep_copy x n
unfolding pure ◌>>=◌ deep_copy_object_drift_check deep_copy_object_drift_check_list
    deep_copy_config_map_source deep_copy_drift_check deep_copy_drift_check_list
    deep_copy_drift_check_spec deep_copy_drift_check_status deep_copy_drift_summary
    deep_copy_drifted_resource deep_copy_git_auth deep_copy_git_source deep_copy_helm_source
    deep_copy_kustomize_source deep_copy_local_secret_ref deep_copy_notify_spec
    deep_copy_secret_key_ref deep_copy_source deep_copy_target deep_copy_webhook
deep_copy_lem L config_map_source x n = refl
deep_copy_lem L drift_check x n = refl
deep_copy_lem L drift_check_list x n = refl
deep_copy_lem L drift_check_spec x n = refl
deep_copy_lem L drift_check_status x n = refl
deep_copy_lem L drift_summary x n = refl
deep_copy_lem L drifted_resource x n = refl
deep_copy_lem L git_auth x n = refl
deep_copy_lem L git_source x n = refl
deep_copy_lem L helm_source x n = refl
deep_copy_lem L kustomize_source x n = refl
deep_copy_lem L local_secret_ref x n = refl
deep_copy_lem L notify_spec x n = refl
deep_copy_lem L secret_key_ref x n = refl
deep_copy_lem L source x n = refl
deep_copy_lem L target x n = refl
deep_copy_lem L webhook x n = refl

-- For every type of the API, what its DeepCopy gives (for a DriftCheck and a list of them, its
-- DeepCopyObject) stands for the same as its argument, nil for nil, and has no pointer or slice that
-- the argument has, nor one twice, so that a write through the one is not seen through the other; if
-- the DeepCopyInto of the libraries' types is so, and the addresses of the argument were handed out
-- before.
pub deep_copy_of-IsCopy :
    (L : Library)
    → LibraryIsDeep L
    → (t : ApiType) (x : Pointer (kind L t).Object) (n : ℕ)
    → All (λ a. a < n) ((pointer (kind L t)).addresses x)
    → IsCopy (pointer (kind L t)) x (deep_copy_of L t x n).0
deep_copy_of-IsCopy L deep t x n old =
    rw (deep_copy_lem L t x n) (deep_copy-IsCopy (kind-IsDeep L deep t) x n old)
