-- ===== src/Common/Sort.antt =====
-- `sort.Strings`: texts in ascending order of their code points. Go promises a sorted rearrangement
-- and not an algorithm; equal texts cannot be told apart, so this insertion sort is that result.
use mathlib.Core.Path.{◌≡◌, refl, ◌∙◌}
use mathlib.Core.Bool.{Bool, true, false, ◌&&◌, ◌||◌}
use mathlib.Core.List.{List, [], ◌∷◌, Perm, Permᴰ, IsChain}
use mathlib.Core.List.Perm
use mathlib.Core.Logic.{∥∥₁_elim, inl, inr}
use native.Mathlib.Omega.{arith}
use kube_drift.Common.Tests.{ltb, nat_eq, if◌then◌else◌, Bool-cases}
use kube_drift.Common.Lists.{All}
use kube_drift.Common.Strings.{Text}

-- `s <= t`
unfoldable pub text_le : Text → Text → Bool
text_le [] t = true
text_le (c ∷ s) [] = false
text_le (c ∷ s) (d ∷ t) = ltb c d || (nat_eq c d && text_le s t)

pub text_le_total : (s t : Text) → text_le s t ≡ false → text_le t s ≡ true
unfolding text_le
text_le_total [] t h = cc
text_le_total (c ∷ s) [] h = refl
text_le_total (c ∷ s) (d ∷ t) h = ground (arith, text_le_total s t)

pub text_le_antisymm : (s t : Text) → text_le s t ≡ true → text_le t s ≡ true → s ≡ t
unfolding text_le
text_le_antisymm [] [] h k = refl
text_le_antisymm [] (d ∷ t) h k = cc
text_le_antisymm (c ∷ s) [] h k = cc
text_le_antisymm (c ∷ s) (d ∷ t) h k = ground (arith, text_le_antisymm s t)

pub text_le_trans : (s t u : Text) → text_le s t ≡ true → text_le t u ≡ true → text_le s u ≡ true
unfolding text_le
text_le_trans [] t u h k = refl
text_le_trans (c ∷ s) [] u h k = cc
text_le_trans (c ∷ s) (d ∷ t) [] h k = cc
text_le_trans (c ∷ s) (d ∷ t) (e ∷ u) h k = ground (arith, text_le_trans s t u)

insert : Text → List Text → List Text
insert s [] = s ∷ []
insert s (t ∷ ts) = if text_le s t then s ∷ t ∷ ts else t ∷ insert s ts

unfoldable pub sort_strings : List Text → List Text
unfolding insert text_le
sort_strings [] = []
sort_strings (s ∷ ss) = insert s (sort_strings ss)

insert-insert : (s t : Text) (us : List Text) → insert s (insert t us) ≡ insert t (insert s us)
unfolding insert
insert-insert s t [] = ground (arith, text_le_total s t, text_le_total t s, text_le_antisymm s t)
insert-insert s t (u ∷ us) = ground (
  arith,
  insert-insert s t us,
  text_le_total s t,
  text_le_total t s,
  text_le_antisymm s t,
  text_le_trans s t u,
  text_le_trans t s u,
)

insert-perm : (s : Text) (ts : List Text) → Perm (insert s ts) (s ∷ ts)
unfolding insert
insert-perm s [] = Perm.rfl
insert-perm s (t ∷ ts) = elim (Bool-cases (text_le s t)) [
  | inl le ↦ rw le Perm.rfl
  | inr gt ↦ rw gt (Perm.trans (Perm.cons t (insert-perm s ts)) (Perm.swap s t ts))
]

-- Sorting rearranges.
pub sort_strings-perm : (ss : List Text) → Perm (sort_strings ss) ss
unfolding sort_strings
sort_strings-perm [] = Perm.rfl
sort_strings-perm (s ∷ ss) =
    Perm.trans (insert-perm s (sort_strings ss)) (Perm.cons s (sort_strings-perm ss))

sort_strings_congᴰ : {ss ts : List Text} → Permᴰ ss ts → sort_strings ss ≡ sort_strings ts
unfolding sort_strings
sort_strings_congᴰ Permᴰ.nil = refl
sort_strings_congᴰ (Permᴰ.cons e p) = cc (e, sort_strings_congᴰ p)
sort_strings_congᴰ (Permᴰ.swap {a = a} {b = b} {l = us} e f) =
    insert-insert a b (sort_strings us) ∙ cc (e, f)
sort_strings_congᴰ (Permᴰ.trans p q) = sort_strings_congᴰ p ∙ sort_strings_congᴰ q

Texts-set : IsSet (List Text)
Texts-set = hlevel

-- Sorting forgets the order that its argument came in.
pub sort_strings_cong : {ss ts : List Text} → Perm ss ts → sort_strings ss ≡ sort_strings ts
sort_strings_cong {ss} {ts} p =
    ∥∥₁_elim p (Texts-set (sort_strings ss) (sort_strings ts)) sort_strings_congᴰ

abbrev pub IsAscending : List Text → Type 0
IsAscending = IsChain (λ s t. text_le s t ≡ true)

-- Insertion below the head `t` of an ascending list, once it is proved for the tail.
insert-cons-IsAscending :
    (s t u : Text) {us : List Text}
    → text_le t u ≡ true
    → IsAscending (u ∷ us)
    → IsAscending (insert s (u ∷ us))
    → IsAscending (insert s (t ∷ u ∷ us))
unfolding insert
insert-cons-IsAscending s t u h c ih = elim (Bool-cases (text_le s t)) [
  | inl le ↦ rw le (IsChain.cons-cons le (IsChain.cons-cons h c))
  | inr gt ↦ rw gt (elim (Bool-cases (text_le s u)) [
    | inl le ↦ rw le (IsChain.cons-cons (text_le_total s t gt) (IsChain.cons-cons le c))
    | inr gt' ↦ rw gt' (IsChain.cons-cons h (rw gt' at ih))
  ])
]

insert-IsAscending : (s : Text) {ts : List Text} → IsAscending ts → IsAscending (insert s ts)
unfolding insert
insert-IsAscending s IsChain.nil = IsChain.singleton s
insert-IsAscending s (IsChain.singleton t) = elim (Bool-cases (text_le s t)) [
  | inl le ↦ rw le (IsChain.cons-cons le (IsChain.singleton t))
  | inr gt ↦ rw gt (IsChain.cons-cons (text_le_total s t gt) (IsChain.singleton s))
]
insert-IsAscending s (IsChain.cons-cons {a = t} {b = u} h c) =
    insert-cons-IsAscending s t u h c (insert-IsAscending s c)

pub sort_strings-IsAscending : (ss : List Text) → IsAscending (sort_strings ss)
unfolding sort_strings
sort_strings-IsAscending [] = IsChain.nil
sort_strings-IsAscending (s ∷ ss) = insert-IsAscending s (sort_strings-IsAscending ss)

insert-All {κ} :
    (P : Text → Type κ) (s : Text) (ts : List Text) → P s → All P ts → All P (insert s ts)
unfolding insert
insert-All P s [] h hs = (h, hs)
insert-All P s (t ∷ ts) h hs = elim (Bool-cases (text_le s t)) [
  | inl le ↦ rw le (h, hs)
  | inr gt ↦ rw gt (hs.0, insert-All P s ts h hs.1)
]

pub sort_strings-All {κ} : (P : Text → Type κ) (ss : List Text) → All P ss → All P (sort_strings ss)
unfolding sort_strings
sort_strings-All P [] h = h
sort_strings-All P (s ∷ ss) h = insert-All P s (sort_strings ss) h.0 (sort_strings-All P ss h.1)
