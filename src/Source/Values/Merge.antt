-- ===== src/Source/Values/Merge.antt =====
-- Lookups in merged chart values.
use kube_drift.Common.{
  ◌≡◌, refl, ap, ◌∙◌, Option, none, some, Text, ◌==◌, eq_refl, eq_of_==, arith, if◌then◌else◌,
  Bool-cases, inl, inr,
}
use kube_drift.Source.Values.{
  Value, leaf, obj, Fields, end, field, lookup, put, merge_values, merge_value,
}

-- Each key once, as in a Go map.
abbrev pub IsMap : Fields → Type 0
IsMap end = Unit
IsMap (field k v rest) = (lookup k rest ≡ none) × IsMap rest

-- What a merge leaves under a key, by what the sides have there.
abbrev pub merged : Option Value → Option Value → Option Value
merged old none = old
merged old (some v) = some (merge_value old v)

lookup-put :
    (k j : Text) (v : Value) (m : Fields)
    → lookup k (put j v m) ≡ (if j == k then some v else lookup k m)
unfolding lookup put
lookup-put k j v end = refl
lookup-put k j v (field i w rest) =
    ground (arith, eq_refl k, lookup-put k j v rest, eq_of_== i j, eq_of_== i k, eq_of_== j k)

pub lookup-merge_values :
    (k : Text) (dst src : Fields)
    → IsMap src
    → lookup k (merge_values dst src) ≡ merged (lookup k dst) (lookup k src)
unfolding lookup merge_values
lookup-merge_values k dst end h = refl
lookup-merge_values k dst (field j v src) h =
    let w = merge_value (lookup j dst) v in
    let rest = lookup-merge_values k (put j w dst) src h.1 in
    let written = rest ∙ ap (λ o. merged o (lookup k src)) (lookup-put k j w dst) in
    elim (Bool-cases (j == k)) [
      | inl same ↦
          let e : j ≡ k = eq_of_== j k same in
          let once : lookup k src ≡ none = rw e at h.0 in
          rw same (written ∙ rw (same, once, e) refl)
      | inr other ↦ rw other (written ∙ rw other refl)
    ]

-- Each key once, in every map.
unfoldable mutual
  pub IsGoValue : Value → Type 0
  IsGoValue (leaf t) = Unit
  IsGoValue (obj m) = IsGoMap m

  pub IsGoMap : Fields → Type 0
  IsGoMap end = Unit
  IsGoMap (field k v rest) = (lookup k rest ≡ none) × IsGoValue v × IsGoMap rest

pub IsMap-IsGoMap : (m : Fields) → IsGoMap m → IsMap m
unfolding IsGoMap
IsMap-IsGoMap end h = tt
IsMap-IsGoMap (field k v rest) h = (h.0, IsMap-IsGoMap rest h.2)

-- What a place holds after a deep merge, by what the earlier and the later values have there.
pub data IsMerge : Option Value → Option Value → Option Value → Type 0 where
  kept : {old : Option Value} → IsMerge old none old
  -- What is no map wins over anything.
  replaced : {old : Option Value} {t : Text} → IsMerge old (some (leaf t)) (some (leaf t))
  -- A map wins over nothing, and over what is no map.
  added : {m : Fields} → IsMerge none (some (obj m)) (some (obj m))
  over_leaf : {t : Text} {m : Fields} → IsMerge (some (leaf t)) (some (obj m)) (some (obj m))
  -- Two maps are merged under each key.
  deep :
      {dst src out : Fields}
      → ((k : Text) → IsMerge (lookup k dst) (lookup k src) (lookup k out))
      → IsMerge (some (obj dst)) (some (obj src)) (some (obj out))

mutual
  unfolding lookup merge_values IsGoMap

  merge_value-IsMerge :
      (old : Option Value) (v : Value)
      → IsGoValue v
      → IsMerge old (some v) (some (merge_value old v))
  merge_value-IsMerge old (leaf t) h = replaced
  merge_value-IsMerge none (obj src) h = added
  merge_value-IsMerge (some (leaf t)) (obj src) h = over_leaf
  merge_value-IsMerge (some (obj dst)) (obj src) h = deep (fields-IsMerge dst src h)

  fields-IsMerge :
      (dst src : Fields)
      → IsGoMap src
      → (k : Text) → IsMerge (lookup k dst) (lookup k src) (lookup k (merge_values dst src))
  fields-IsMerge dst end h k = kept
  fields-IsMerge dst (field j v src) (once, deep_value, more) k =
      let w = merge_value (lookup j dst) v in
      let rest = fields-IsMerge (put j w dst) src more k in
      elim (Bool-cases (j == k)) [
        | inl same ↦
            let e : j ≡ k = eq_of_== j k same in
            let nothing : lookup k src ≡ none = rw e at once in
            let now : lookup k (merge_values (put j w dst) src) ≡ some w =
              lookup-merge_values k (put j w dst) src (IsMap-IsGoMap src more)
              ∙ rw (nothing, lookup-put k j w dst, same) refl in
            rw (same, now, e) (merge_value-IsMerge (lookup k dst) v deep_value)
        | inr other ↦ rw other (rw (lookup-put k j w dst, other) at rest)
      ]

-- A merge of chart values is deep: under each key, and so on in maps that both sides have there,
-- the later value wins, and what only one side has is kept. The later values have each key once.
pub merge_values-IsMerge :
    (dst src : Fields)
    → IsGoMap src
    → (k : Text) → IsMerge (lookup k dst) (lookup k src) (lookup k (merge_values dst src))
merge_values-IsMerge = fields-IsMerge
