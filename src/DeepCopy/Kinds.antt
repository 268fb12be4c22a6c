-- ===== src/DeepCopy/Kinds.antt =====
-- Kinds of objects from kinds: values without pointers, pointers, slices and fields, each with what it
-- stands for, its addresses and its copy. A nil slice stands for the empty list.
use kube_drift.Common.{ℕ, Option, none, some, List, [], ◌∷◌, ◌++◌}
use kube_drift.DeepCopy.{Pointer, Slice, pure, ◌>>=◌, Kind}
use kube_drift.DeepCopy.Copies.{copy_flat, copy_pointer, copy_slice}

abbrev pub flat : (A : Type 0) → Kind A
flat A = record { Object = A; value = λ x. x; addresses = λ x. []; deep_copy = copy_flat }

module _ {V : Type 0} (K : Kind V) where
  abbrev pub pointer_value : Pointer K.Object → Option V
  pointer_value none = none
  pointer_value (some (address, x)) = some (K.value x)

  abbrev pub pointer_addresses : Pointer K.Object → List ℕ
  pointer_addresses none = []
  pointer_addresses (some (address, x)) = address ∷ K.addresses x

  abbrev pub pointer : Kind (Option V)
  pointer = record {
    Object = Pointer K.Object;
    value = pointer_value;
    addresses = pointer_addresses;
    deep_copy = copy_pointer K.deep_copy;
  }

  abbrev pub values : List K.Object → List V
  values [] = []
  values (x ∷ xs) = K.value x ∷ values xs

  abbrev pub all_addresses : List K.Object → List ℕ
  all_addresses [] = []
  all_addresses (x ∷ xs) = K.addresses x ++ all_addresses xs

  abbrev pub slice_value : Slice K.Object → List V
  slice_value none = []
  slice_value (some (address, xs)) = values xs

  abbrev pub slice_addresses : Slice K.Object → List ℕ
  slice_addresses none = []
  slice_addresses (some (address, xs)) = address ∷ all_addresses xs

  abbrev pub slice : Kind (List V)
  slice = record {
    Object = Slice K.Object;
    value = slice_value;
    addresses = slice_addresses;
    deep_copy = copy_slice K.deep_copy;
  }

-- Two fields, the first copied first.
abbrev pub pair : {V W : Type 0} → Kind V → Kind W → Kind (V × W)
pair K M = record {
  Object = K.Object × M.Object;
  value = λ (x, y). (K.value x, M.value y);
  addresses = λ (x, y). K.addresses x ++ M.addresses y;
  deep_copy = λ (x, y). do
    x' ← K.deep_copy x
    y' ← M.deep_copy y
    pure (x', y');
}
