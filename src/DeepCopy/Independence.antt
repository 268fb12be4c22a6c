-- ===== src/DeepCopy/Independence.antt =====
-- A deep copy stands for the same, and all its addresses are fresh. The rules by which the copies of
-- pointers, slices and fields do so.
pub mod Types
pub mod Everywhere
use kube_drift.Common.{
  ℕ, suc, ◌≤◌, ◌<◌, ◌≡◌, ◌≢◌, refl, ap, none, some, List, [], ◌∷◌, ◌++◌, All, All-append, arith,
}
use kube_drift.DeepCopy.{Kind, pure, ◌>>=◌, allocate}
use kube_drift.DeepCopy.Copies.{copy_flat, copy_pointer, copy_all, copy_slice}
use kube_drift.DeepCopy.Kinds.{flat, pointer, slice, pair, values, all_addresses}

-- An address that was handed out from `n` on and before `m`.
abbrev pub IsWithin : ℕ → ℕ → ℕ → Type 0
IsWithin n m address = (n ≤ address) × (address < m)

-- No address of the one is an address of the other.
abbrev pub Apart : List ℕ → List ℕ → Type 0
Apart xs ys = All (λ x. All (λ y. x ≢ y) ys) xs

abbrev pub AllDistinct : List ℕ → Type 0
AllDistinct [] = Unit
AllDistinct (x ∷ xs) = All (λ y. x ≢ y) xs × AllDistinct xs

pub record IsDeep {V : Type 0} (K : Kind V) : Type 0 where
  pub grows : (x : K.Object) (n : ℕ) → n ≤ (K.deep_copy x n).1
  pub same : (x : K.Object) (n : ℕ) → K.value (K.deep_copy x n).0 ≡ K.value x
  pub fresh :
      (x : K.Object) (n : ℕ) → let (y, m) = K.deep_copy x n in All (IsWithin n m) (K.addresses y)
  pub distinct : (x : K.Object) (n : ℕ) → AllDistinct (K.addresses (K.deep_copy x n).0)

widened :
    (n n' m m' : ℕ) (xs : List ℕ)
    → n' ≤ n
    → m ≤ m'
    → All (IsWithin n m) xs
    → All (IsWithin n' m') xs
widened n n' m m' [] low high h = tt
widened n n' m m' (x ∷ xs) low high h =
    ((omega (arith, h.0.0, low), omega (arith, h.0.1, high)), widened n n' m m' xs low high h.1)

-- Addresses of two copies, one behind the other.
behind :
    (n m l : ℕ) (xs ys : List ℕ)
    → n ≤ m
    → m ≤ l
    → All (IsWithin n m) xs
    → All (IsWithin m l) ys
    → All (IsWithin n l) (xs ++ ys)
behind n m l xs ys hm hl hx hy =
    All-append (IsWithin n l) xs ys (widened n n m l xs (omega arith) hl hx)
      (widened m n l l ys hm (omega arith) hy)

-- An address that was handed out before others.
before_all : (x m l : ℕ) (ys : List ℕ) → x < m → All (IsWithin m l) ys → All (λ y. x ≢ y) ys
before_all x m l [] hx h = tt
before_all x m l (y ∷ ys) hx h = (λ e. omega (arith, e, hx, h.0.0), before_all x m l ys hx h.1)

append-AllDistinct :
    (n m l : ℕ) (xs ys : List ℕ)
    → All (IsWithin n m) xs
    → All (IsWithin m l) ys
    → AllDistinct xs
    → AllDistinct ys
    → AllDistinct (xs ++ ys)
append-AllDistinct n m l [] ys hx hy dx dy = dy
append-AllDistinct n m l (x ∷ xs) ys hx hy dx dy = (
  All-append (λ y. x ≢ y) xs ys dx.0 (before_all x m l ys hx.0.1 hy),
  append-AllDistinct n m l xs ys hx.1 hy dx.1 dy,
)

pub flat-IsDeep : (A : Type 0) → IsDeep (flat A)
unfolding pure copy_flat
flat-IsDeep A = record {
  grows = λ x n. omega arith;
  same = λ x n. refl;
  fresh = λ x n. tt;
  distinct = λ x n. tt;
}

module _ {V : Type 0} {K : Kind V} (d : IsDeep K) where
  pub pointer-IsDeep : IsDeep (pointer K)
  unfolding pure ◌>>=◌ allocate copy_pointer
  pointer-IsDeep = record { grows = grows; same = equal; fresh = fresh; distinct = distinct }
    where
      grows : (x : (pointer K).Object) (n : ℕ) → n ≤ ((pointer K).deep_copy x n).1
      grows none n = omega arith
      grows (some (address, x)) n = omega (arith, d.grows x (suc n))

      equal :
          (x : (pointer K).Object) (n : ℕ)
          → (pointer K).value ((pointer K).deep_copy x n).0 ≡ (pointer K).value x
      equal none n = refl
      equal (some (address, x)) n = ap some (d.same x (suc n))

      fresh :
          (x : (pointer K).Object) (n : ℕ)
          → let (y, m) = (pointer K).deep_copy x n in All (IsWithin n m) ((pointer K).addresses y)
      fresh none n = tt
      fresh (some (address, x)) n =
          let m = (K.deep_copy x (suc n)).1 in
          (
            (omega arith, omega (arith, d.grows x (suc n))),
            widened (suc n) n m m _ (omega arith) (omega arith) (d.fresh x (suc n)),
          )

      distinct :
          (x : (pointer K).Object) (n : ℕ)
          → AllDistinct ((pointer K).addresses ((pointer K).deep_copy x n).0)
      distinct none n = tt
      distinct (some (address, x)) n = (
        before_all n (suc n) (K.deep_copy x (suc n)).1 _ (omega arith) (d.fresh x (suc n)),
        d.distinct x (suc n),
      )

  all-grows : (xs : List K.Object) (n : ℕ) → n ≤ (copy_all K.deep_copy xs n).1
  unfolding pure ◌>>=◌ copy_all
  all-grows [] n = omega arith
  all-grows (x ∷ xs) n = omega (arith, d.grows x n, all-grows xs (K.deep_copy x n).1)

  all-same : (xs : List K.Object) (n : ℕ) → values K (copy_all K.deep_copy xs n).0 ≡ values K xs
  unfolding pure ◌>>=◌ copy_all
  all-same [] n = refl
  all-same (x ∷ xs) n = λ i. d.same x n i ∷ all-same xs (K.deep_copy x n).1 i

  all-fresh :
      (xs : List K.Object) (n : ℕ)
      → let (ys, m) = copy_all K.deep_copy xs n in All (IsWithin n m) (all_addresses K ys)
  unfolding pure ◌>>=◌ copy_all
  all-fresh [] n = tt
  all-fresh (x ∷ xs) n =
      let m = (K.deep_copy x n).1 in
      behind n m (copy_all K.deep_copy xs m).1 _ _ (d.grows x n) (all-grows xs m) (d.fresh x n)
        (all-fresh xs m)

  all-distinct :
      (xs : List K.Object) (n : ℕ) → AllDistinct (all_addresses K (copy_all K.deep_copy xs n).0)
  unfolding pure ◌>>=◌ copy_all
  all-distinct [] n = tt
  all-distinct (x ∷ xs) n =
      let m = (K.deep_copy x n).1 in
      append-AllDistinct n m (copy_all K.deep_copy xs m).1 _ _ (d.fresh x n) (all-fresh xs m)
        (d.distinct x n) (all-distinct xs m)

  pub slice-IsDeep : IsDeep (slice K)
  unfolding pure ◌>>=◌ allocate copy_slice
  slice-IsDeep = record { grows = grows; same = equal; fresh = fresh; distinct = distinct }
    where
      grows : (xs : (slice K).Object) (n : ℕ) → n ≤ ((slice K).deep_copy xs n).1
      grows none n = omega arith
      grows (some (address, xs)) n = omega (arith, all-grows xs (suc n))

      equal :
          (xs : (slice K).Object) (n : ℕ)
          → (slice K).value ((slice K).deep_copy xs n).0 ≡ (slice K).value xs
      equal none n = refl
      equal (some (address, xs)) n = all-same xs (suc n)

      fresh :
          (xs : (slice K).Object) (n : ℕ)
          → let (ys, m) = (slice K).deep_copy xs n in All (IsWithin n m) ((slice K).addresses ys)
      fresh none n = tt
      fresh (some (address, xs)) n =
          let m = (copy_all K.deep_copy xs (suc n)).1 in
          (
            (omega arith, omega (arith, all-grows xs (suc n))),
            widened (suc n) n m m _ (omega arith) (omega arith) (all-fresh xs (suc n)),
          )

      distinct :
          (xs : (slice K).Object) (n : ℕ)
          → AllDistinct ((slice K).addresses ((slice K).deep_copy xs n).0)
      distinct none n = tt
      distinct (some (address, xs)) n =
          let (ys, m) = copy_all K.deep_copy xs (suc n) in
          (
            before_all n (suc n) m (all_addresses K ys) (omega arith) (all-fresh xs (suc n)),
            all-distinct xs (suc n),
          )

module _ {V W : Type 0} {K : Kind V} {M : Kind W} (d : IsDeep K) (e : IsDeep M) where
  pub pair-IsDeep : IsDeep (pair K M)
  unfolding pure ◌>>=◌
  pair-IsDeep = record {
    grows = λ (x, y) n. omega (arith, d.grows x n, e.grows y (K.deep_copy x n).1);
    same = λ (x, y) n. λ i. (d.same x n i, e.same y (K.deep_copy x n).1 i);
    fresh = λ (x, y) n.
        let m = (K.deep_copy x n).1 in
        behind n m (M.deep_copy y m).1 _ _ (d.grows x n) (e.grows y m) (d.fresh x n) (e.fresh y m);
    distinct = λ (x, y) n.
        let m = (K.deep_copy x n).1 in
        append-AllDistinct n m (M.deep_copy y m).1 _ _ (d.fresh x n) (e.fresh y m) (d.distinct x n)
          (e.distinct y m);
  }
