-- ===== src/DeepCopy.antt =====
-- The memory of api/v1alpha1/zz_generated.deepcopy.go: the API's objects with the addresses of what
-- their pointers and slices refer to, and an allocator of fresh addresses.
pub mod Objects
pub mod Copies
pub mod Named
pub mod Kinds
pub mod Values
pub mod ApiTypes
pub mod Independence
use kube_drift.Common.{ℕ, suc, Option, none, some, List, [], ◌∷◌, Text}
use kube_drift.Api.{LabelSelector, Condition}

-- A pointer to an object, and a slice of objects, which its array holds. Both may be nil.
abbrev pub Pointer : Type 0 → Type 0
Pointer A = Option (ℕ × A)

abbrev pub Slice : Type 0 → Type 0
Slice A = Option (ℕ × List A)

-- The argument and the second result are the next free address.
abbrev pub Alloc : Type 0 → Type 0
Alloc A = ℕ → A × ℕ

module _ {A : Type 0} where
  unfoldable pub pure : A → Alloc A
  pure a next = (a, next)

module _ {A B : Type 0} where
  infixl 10 ◌>>=◌
  unfoldable pub ◌>>=◌ : Alloc A → (A → Alloc B) → Alloc B
  unfolding pure
  ◌>>=◌ f k next = let (a, next') = f next in k a next'

-- `new(T)`, or the array of `make([]T, n)`.
unfoldable pub allocate : Alloc ℕ
allocate next = (next, suc next)

-- A type of a library with its `DeepCopyInto`: what an object stands for, and the addresses in it.
pub record Kind (V : Type 0) : Type 1 where
  pub Object : Type 0
  pub value : Object → V
  pub addresses : Object → List ℕ
  pub deep_copy : Object → Alloc Object

-- The part of metav1.ObjectMeta that the program reads.
pub record Meta : Type 0 where
  pub name : Text
  pub namespace : Text
  pub generation : ℕ
  pub resource_version : Text

-- k8s.io/apimachinery and k8s.io/apiextensions-apiserver
pub record Library : Type 1 where
  pub json : Kind Text
  pub label_selector : Kind LabelSelector
  pub time : Kind ℕ
  pub condition : Kind Condition
  pub object_meta : Kind Meta
  pub list_meta : Kind Text
