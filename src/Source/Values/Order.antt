-- ===== src/Source/Values/Order.antt =====
-- The order in which Go ranges over the maps of chart values.
use kube_drift.Common.{
  ◌≡◌, refl, ap, ◌∙◌, sym, Option, none, some, List, [], ◌∷◌, Text, ◌==◌, Bool-cases, inl, inr,
}
use kube_drift.Source.Values.{
  Value, leaf, obj, Fields, end, field, lookup, merge_values, merge_value,
}
use kube_drift.Source.Values.Merge.{IsGoValue, IsGoMap, IsMap-IsGoMap, merged, lookup-merge_values}

-- What is under a path of keys: nothing, a text, or a map.
abbrev pub see : List Text → Option Value → Option (Option Text)
see path none = none
see [] (some (leaf t)) = some (some t)
see [] (some (obj m)) = some none
see (k ∷ path) (some (leaf t)) = none
see (k ∷ path) (some (obj m)) = see path (lookup k m)

-- Two values, or two entries, that are the same under each path, in whatever order they are listed.
abbrev pub Alike : Option Value → Option Value → Type 0
Alike v w = (path : List Text) → see path v ≡ see path w

abbrev IsGoEntry : Option Value → Type 0
IsGoEntry none = Unit
IsGoEntry (some v) = IsGoValue v

lookup-IsGoEntry : (k : Text) (m : Fields) → IsGoMap m → IsGoEntry (lookup k m)
unfolding IsGoMap lookup
lookup-IsGoEntry k end h = tt
lookup-IsGoEntry k (field j v rest) h = elim (Bool-cases (j == k)) [
  | inl same ↦ rw same h.1
  | inr other ↦ rw other (lookup-IsGoEntry k rest h.2)
]

merged-Alike :
    (path : List Text) (old old' new new' : Option Value)
    → ((v v' : Value)
        → IsGoValue v
        → IsGoValue v'
        → Alike (some v) (some v')
        → see path (some (merge_value old v)) ≡ see path (some (merge_value old' v')))
    → Alike old old'
    → Alike new new'
    → IsGoEntry new
    → IsGoEntry new'
    → see path (merged old new) ≡ see path (merged old' new')
merged-Alike path old old' none none rec olds news g g' = olds path
merged-Alike path old old' none (some (leaf t)) rec olds news g g' = cc (news [])
merged-Alike path old old' none (some (obj m)) rec olds news g g' = cc (news [])
merged-Alike path old old' (some (leaf t)) none rec olds news g g' = cc (news [])
merged-Alike path old old' (some (obj m)) none rec olds news g g' = cc (news [])
merged-Alike path old old' (some v) (some v') rec olds news g g' = rec v v' g g' news

merge_value-Alike :
    (path : List Text) (old old' : Option Value) (v v' : Value)
    → Alike old old'
    → IsGoValue v
    → IsGoValue v'
    → Alike (some v) (some v')
    → see path (some (merge_value old v)) ≡ see path (some (merge_value old' v'))
unfolding merge_value IsGoValue
merge_value-Alike path old old' (leaf t) (leaf t') olds g g' h = h path
merge_value-Alike path old old' (leaf t) (obj m) olds g g' h = cc (h [])
merge_value-Alike path old old' (obj m) (leaf t) olds g g' h = cc (h [])
merge_value-Alike path none none (obj m) (obj m') olds g g' h = h path
merge_value-Alike path none (some (leaf t)) (obj m) (obj m') olds g g' h = cc (olds [])
merge_value-Alike path none (some (obj d)) (obj m) (obj m') olds g g' h = cc (olds [])
merge_value-Alike path (some (leaf t)) none (obj m) (obj m') olds g g' h = cc (olds [])
merge_value-Alike path (some (obj d)) none (obj m) (obj m') olds g g' h = cc (olds [])
merge_value-Alike path (some (leaf t)) (some (leaf t')) (obj m) (obj m') olds g g' h = h path
merge_value-Alike path (some (leaf t)) (some (obj d)) (obj m) (obj m') olds g g' h = cc (olds [])
merge_value-Alike path (some (obj d)) (some (leaf t)) (obj m) (obj m') olds g g' h = cc (olds [])
merge_value-Alike [] (some (obj d)) (some (obj d')) (obj m) (obj m') olds g g' h = refl
merge_value-Alike (k ∷ path) (some (obj d)) (some (obj d')) (obj m) (obj m') olds g g' h =
    let below : Alike (lookup k d) (lookup k d') = λ q. olds (k ∷ q) in
    ap (see path) (lookup-merge_values k d m (IsMap-IsGoMap m g))
    ∙ merged-Alike path (lookup k d) (lookup k d') (lookup k m) (lookup k m')
        (λ v v' gv gv' same.
          merge_value-Alike path (lookup k d) (lookup k d') v v' below gv gv' same)
        below (λ q. h (k ∷ q)) (lookup-IsGoEntry k m g) (lookup-IsGoEntry k m' g')
    ∙ sym (ap (see path) (lookup-merge_values k d' m' (IsMap-IsGoMap m' g')))

-- A merge does not depend on the order in which Go ranges over its maps, of the values or within
-- them: for the same values in other orders it leaves the same under every path. Each key is once in
-- a map.
pub merge_values-Alike :
    (dst dst' src src' : Fields)
    → IsGoMap src
    → IsGoMap src'
    → Alike (some (obj dst)) (some (obj dst'))
    → Alike (some (obj src)) (some (obj src'))
    → Alike (some (obj (merge_values dst src))) (some (obj (merge_values dst' src')))
unfolding merge_value IsGoValue
merge_values-Alike dst dst' src src' g g' dsts srcs path =
    merge_value-Alike path (some (obj dst)) (some (obj dst')) (obj src) (obj src') dsts g g' srcs
