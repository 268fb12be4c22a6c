-- ===== src/Controller/ConfigMaps/Manifests.antt =====
-- The outcome of `configMapManifests`, and the order of Go's maps.
use mathlib.Core.List.Perm
use kube_drift.Common.{
  ◌≡◌, refl, ap, ◌≢◌, List, [], ◌∷◌, Text, Perm, is_empty, trim_space, sort_strings,
  sort_strings_cong, if◌then◌else◌, Bool-cases, Option-cases, inl, inr, IsBlank, trim_space-eq-nil,
}
use kube_drift.Errors.{Result, ok}
use kube_drift.Libraries.{ConfigMap}
use kube_drift.Controller.ConfigMaps.{
  entry, keys, content, contents, all_keys, joined_content, key_manifests, all_manifests,
  config_map_manifests,
}

checked :
    (t v : Text) (e : Result Text)
    → ((x : Text) → e ≢ ok x)
    → (if is_empty (trim_space t) then e else ok t) ≡ ok v
    → (t ≡ v) × ¬ IsBlank v
checked t v e never h = elim (Bool-cases (is_empty (trim_space t))) [
  | inl blank ↦ absurd (never v (rw blank at h))
  | inr full ↦
      let same : t ≡ v = cc (rw full at h) in
      (same, λ blank. cc (full, ap is_empty ((trim_space-eq-nil v).1 blank), same))
]

-- Two listings of one map: the same keys in another order, and the same lookups.
pub record SameMap (m n : List (Text × Text)) : Type 0 where
  pub keys : Perm (keys m) (keys n)
  pub lookups : (k : Text) → entry k m ≡ entry k n

-- One ConfigMap as two reads may list it.
pub record SameConfigMap (cm dm : ConfigMap) : Type 0 where
  pub name : cm.name ≡ dm.name
  pub namespace : cm.namespace ≡ dm.namespace
  pub texts : SameMap cm.texts dm.texts
  pub binaries : SameMap cm.binaries dm.binaries

content_cong : (cm dm : ConfigMap) → SameConfigMap cm dm → (k : Text) → content cm k ≡ content dm k
unfolding content
content_cong cm dm same k = elim (Option-cases (entry k dm.texts)) [
  | inl missing ↦ rw (content, same.texts.lookups k, missing) (same.binaries.lookups k)
  | inr (v, found) ↦ rw (content, same.texts.lookups k, found) refl
]

contents_cong :
    (cm dm : ConfigMap) → SameConfigMap cm dm → (ks : List Text) → contents cm ks ≡ contents dm ks
unfolding contents
contents_cong cm dm same [] = refl
contents_cong cm dm same (k ∷ ks) =
    let rest = contents_cong cm dm same ks in
    elim (Option-cases (content dm k)) [
      | inl missing ↦ rw (contents, content_cong cm dm same k, missing) rest
      | inr (v, found) ↦ rw (contents, content_cong cm dm same k, found) (ap (λ vs. v ∷ vs) rest)
    ]

joined_content_cong :
    (cm dm : ConfigMap) → SameConfigMap cm dm → joined_content cm ≡ joined_content dm
unfolding joined_content
joined_content_cong cm dm same =
    let sorted : sort_strings (all_keys cm) ≡ sort_strings (all_keys dm) =
      sort_strings_cong (Perm.append same.texts.keys same.binaries.keys) in
    rw (sorted, contents_cong cm dm same (sort_strings (all_keys dm))) refl

key_manifests_cong :
    (cm dm : ConfigMap)
    → SameConfigMap cm dm
    → (key : Text) → key_manifests cm key ≡ key_manifests dm key
unfolding key_manifests
key_manifests_cong cm dm same key = elim (Option-cases (content dm key)) [
  | inl missing ↦
      rw (key_manifests, content_cong cm dm same key, missing, same.name, same.namespace) refl
  | inr (v, found) ↦
      rw (key_manifests, content_cong cm dm same key, found, same.name, same.namespace) refl
]

-- Go iterates over its maps in any order, and the manifests do not depend on it, error or not.
pub config_map_manifests_cong :
    (cm dm : ConfigMap) (key : Text)
    → SameConfigMap cm dm
    → config_map_manifests cm key ≡ config_map_manifests dm key
unfolding config_map_manifests key_manifests all_manifests
config_map_manifests_cong cm dm key same =
    rw
      (key_manifests_cong cm dm same key, joined_content_cong cm dm same, same.name, same.namespace)
      refl
