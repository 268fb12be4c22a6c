-- ===== src/Tests/Manifests.antt =====
-- Examples of the theorems on the manifests of a ConfigMap.
use mathlib.Core.List.Perm
use kube_drift.Common.{
  ◌≡◌, refl, ap, ◌∙◌, inl, inr, true, [], ◌∷◌, Text, text, Perm, ◌==◌, eq_of_==, Bool-cases,
  trim_space, sort_strings, join,
}
use kube_drift.Errors.{ok}
use kube_drift.Libraries.{ConfigMap}
use kube_drift.Controller.ConfigMaps.{entry, keys, config_map_manifests}
use kube_drift.Controller.ConfigMaps.Manifests.{SameConfigMap, config_map_manifests_cong}
use kube_drift.Tests.Fixtures.{manifests}

-- Entries that are all blank pass as manifests: the separator is not blank.
abbrev blank_entries : ConfigMap
blank_entries = record manifests {
  texts = (text "a", []) ∷ (text "b", text " ") ∷ [];
  binaries = [];
}

blank_entries-ok : config_map_manifests blank_entries [] ≡ ok (text "\n---\n ")
unfolding config_map_manifests trim_space ◌==◌ sort_strings join
blank_entries-ok = refl

-- The same ConfigMap, its Data listed in the other order.
abbrev relisted : ConfigMap
relisted = record manifests { texts = (text "a", text "kind: A") ∷ (text "b", text "kind: B") ∷ [] }

apart : {A : Type 0} (k : Text) → text "b" ≡ k → (text "a" == k) ≡ true → A
unfolding ◌==◌
apart k e h = let same : (text "a" == text "b") ≡ true = ap (λ t. text "a" == t) e ∙ h in cc

relisted-lookups : (k : Text) → entry k manifests.texts ≡ entry k relisted.texts
unfolding entry
relisted-lookups k = elim (Bool-cases (text "b" == k)) [
  | inl at_b ↦ elim (Bool-cases (text "a" == k)) [
    | inl at_a ↦ apart k (eq_of_== (text "b") k at_b) at_a
    | inr not_a ↦ rw (at_b, not_a) refl
  ]
  | inr not_b ↦ elim (Bool-cases (text "a" == k)) [
    | inl at_a ↦ rw (not_b, at_a) refl
    | inr not_a ↦ rw (not_b, not_a) refl
  ]
]

relisted-keys : Perm (keys manifests.texts) (keys relisted.texts)
unfolding keys
relisted-keys = Perm.swap (text "a") (text "b") []

relisted-SameConfigMap : SameConfigMap manifests relisted
relisted-SameConfigMap = record {
  name = refl;
  namespace = refl;
  texts = record { keys = relisted-keys; lookups = relisted-lookups };
  binaries = record { keys = Perm.rfl; lookups = λ k. refl };
}

config_map_manifests_cong_example :
    config_map_manifests manifests [] ≡ config_map_manifests relisted []
config_map_manifests_cong_example =
    config_map_manifests_cong manifests relisted [] relisted-SameConfigMap
