-- ===== src/Tests/Merging.antt =====
-- Examples of the theorems on chart values.
use kube_drift.Common.{
  ◌≡◌, ◌≢◌, refl, sym, ap, ◌∙◌, some, [], ◌∷◌, Text, text, ◌==◌, eq_of_==, Bool-cases, inl, inr,
}
use kube_drift.Source.Values.{Value, Fields, leaf, obj, end, field, lookup, merge_values}
use kube_drift.Source.Values.Merge.{IsGoValue}
use kube_drift.Source.Values.Order.{see, Alike, merge_values-Alike}

abbrev chart_values : Fields
chart_values =
    field (text "replicas") (leaf (text "1"))
      (field (text "image") (obj (field (text "tag") (leaf (text "1")) end)) end)

abbrev image : Value
image = obj (field (text "tag") (leaf (text "2")) (field (text "name") (leaf (text "web")) end))

abbrev port : Value
port = leaf (text "80")

lookup-swap :
    (i j k : Text) (v w : Value) (rest : Fields)
    → j ≢ k
    → lookup i (field j v (field k w rest)) ≡ lookup i (field k w (field j v rest))
unfolding lookup
lookup-swap i j k v w rest apart = elim (Bool-cases (j == i)) [
  | inl first ↦ elim (Bool-cases (k == i)) [
    | inl second ↦ absurd (apart (eq_of_== j i first ∙ sym (eq_of_== k i second)))
    | inr other ↦ rw (first, other) refl
  ]
  | inr later ↦ rw later refl
]

swap-Alike :
    (j k : Text) (v w : Value) (rest : Fields)
    → j ≢ k
    → Alike (some (obj (field j v (field k w rest)))) (some (obj (field k w (field j v rest))))
swap-Alike j k v w rest apart [] = refl
swap-Alike j k v w rest apart (i ∷ path) = ap (see path) (lookup-swap i j k v w rest apart)

merge_values-Alike_example :
    Alike
      (some (
        obj
          (merge_values chart_values (field (text "image") image (field (text "port") port end)))))
      (some (
        obj
          (merge_values chart_values (field (text "port") port (field (text "image") image end)))))
unfolding IsGoValue lookup ◌==◌
merge_values-Alike_example =
    merge_values-Alike chart_values chart_values
      (field (text "image") image (field (text "port") port end))
      (field (text "port") port (field (text "image") image end))
      (refl, (refl, tt, (refl, tt, tt)), (refl, tt, tt))
      (refl, tt, (refl, (refl, tt, (refl, tt, tt)), tt)) (λ path. refl)
      (swap-Alike (text "image") (text "port") image port end (λ e. cc))
