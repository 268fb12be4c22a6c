-- ===== src/Source/Values.antt =====
-- Chart values, and `mergeValues` of internal/source/helm.go. A `map[string]any` is its entries in
-- some order, each key once; a value that is no such map is opaque to the merge.
pub mod Merge
pub mod Order
use kube_drift.Common.{Bool, true, false, Option, none, some, Text, ◌==◌, if◌then◌else◌}

mutual
  pub data Value : Type 0 where
    leaf : Text → Value
    obj : Fields → Value

  pub data Fields : Type 0 where
    end : Fields
    field : Text → Value → Fields → Fields

-- `m[k]`
unfoldable pub lookup : Text → Fields → Option Value
lookup k end = none
lookup k (field j v rest) = if j == k then some v else lookup k rest

-- `m[k] = v`
unfoldable pub put : Text → Value → Fields → Fields
put k v end = field k v end
put k v (field j w rest) = if j == k then field k v rest else field j w (put k v rest)

unfoldable mutual
  -- The `range` over src, in the order of its entries.
  pub merge_values : Fields → Fields → Fields
  merge_values dst end = dst
  merge_values dst (field k v src) = merge_values (put k (merge_value (lookup k dst) v) dst) src

  -- What one round writes, from the entry of dst if there is one.
  pub merge_value : Option Value → Value → Value
  merge_value old (leaf t) = leaf t
  merge_value none (obj src) = obj src
  merge_value (some (leaf t)) (obj src) = obj src
  merge_value (some (obj dst)) (obj src) = obj (merge_values dst src)
