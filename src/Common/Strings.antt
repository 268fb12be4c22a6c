-- ===== src/Common/Strings.antt =====
-- Go strings and byte slices, and what the program uses of the packages `strings` and `bytes`.
-- A text is the list of its code points. A byte that is no valid UTF-8 stands for itself as a
-- number above 0x10FFFF: it is never a space, as in Go. Texts are compared by code points, which is
-- the order of their UTF-8 bytes.
use Prim.Native.Nat.{ℕ, ◌≤◌}
use Prim.Native.Char.{code}
use Prim.Native.String.{String}
use mathlib.Core.Path.{◌≡◌, refl, ap}
use mathlib.Core.Logic.{◌↔◌}
use mathlib.Core.Bool.{Bool, true, false, ◌&&◌, ◌||◌}
use mathlib.Core.List.{List, [], ◌∷◌, ◌++◌}
use native.Mathlib.Omega.{arith}
use kube_drift.Common.Tests.{leb, nat_eq, if◌then◌else◌}
use kube_drift.Common.Lists.{All}

abbrev pub Text : Type 0
Text = List ℕ

-- A literal of the source.
abbrev pub text : String → Text
text String.[] = []
text (String.◌∷◌ c s) = code c ∷ text s

-- Unicode: no byte of the text stands for itself.
abbrev pub IsText : Text → Type 0
IsText = All (λ c. c ≤ 0x10FFFF)

abbrev pub is_text : Text → Bool
is_text [] = true
is_text (c ∷ s) = leb c 0x10FFFF && is_text s

-- For the literals of the source.
pub IsText-literal : (s : Text) → is_text s ≡ true → IsText s
IsText-literal [] h = tt
IsText-literal (c ∷ s) h = (ground arith, IsText-literal s (ground arith))

-- `s == ""`, `len(s) == 0`
abbrev pub is_empty {ℓ} : {A : Type ℓ} → List A → Bool
is_empty [] = true
is_empty (x ∷ xs) = false

infix 50 ◌==◌
unfoldable pub ◌==◌ : Text → Text → Bool
◌==◌ [] [] = true
◌==◌ [] (d ∷ t) = false
◌==◌ (c ∷ s) [] = false
◌==◌ (c ∷ s) (d ∷ t) = nat_eq c d && s == t

pub eq_refl : (s : Text) → (s == s) ≡ true
unfolding ◌==◌
eq_refl [] = refl
eq_refl (c ∷ s) = ground (arith, eq_refl s)

pub eq_of_== : (s t : Text) → (s == t) ≡ true → s ≡ t
unfolding ◌==◌
eq_of_== [] [] h = refl
eq_of_== [] (d ∷ t) h = cc
eq_of_== (c ∷ s) [] h = cc
eq_of_== (c ∷ s) (d ∷ t) h = ground (arith, eq_of_== s t)

pub eq_iff : (s t : Text) → ((s == t) ≡ true) ↔ (s ≡ t)
eq_iff s t = (eq_of_== s t, λ e. rw e (eq_refl t))

-- `unicode.IsSpace`
unfoldable pub is_space : ℕ → Bool
is_space c =
    (leb 9 c && leb c 13)
    || nat_eq c 32
    || nat_eq c 0x85
    || nat_eq c 0xA0
    || nat_eq c 0x1680
    || (leb 0x2000 c && leb c 0x200A)
    || nat_eq c 0x2028
    || nat_eq c 0x2029
    || nat_eq c 0x202F
    || nat_eq c 0x205F
    || nat_eq c 0x3000

-- The members of the cut set "\r\n".
unfoldable pub is_line_end : ℕ → Bool
is_line_end c = nat_eq c 13 || nat_eq c 10

unfoldable pub trim_left_by : (ℕ → Bool) → Text → Text
trim_left_by p [] = []
trim_left_by p (c ∷ s) = if p c then trim_left_by p s else c ∷ s

-- One step from the right: `rest` is trimmed already.
unfoldable pub cons_trimmed : (ℕ → Bool) → ℕ → Text → Text
cons_trimmed p c [] = if p c then [] else c ∷ []
cons_trimmed p c (d ∷ rest) = c ∷ d ∷ rest

unfoldable pub trim_right_by : (ℕ → Bool) → Text → Text
unfolding cons_trimmed
trim_right_by p [] = []
trim_right_by p (c ∷ s) = cons_trimmed p c (trim_right_by p s)

-- `strings.TrimSpace`, `bytes.TrimSpace`
unfoldable pub trim_space : Text → Text
unfolding trim_left_by trim_right_by is_space
trim_space s = trim_right_by is_space (trim_left_by is_space s)

-- `strings.TrimRight(s, "\r\n")`, `bytes.TrimRight(s, "\r\n")`
unfoldable pub trim_line_end : Text → Text
unfolding trim_right_by is_line_end
trim_line_end s = trim_right_by is_line_end s

-- Every code point is a space.
abbrev pub IsBlank : Text → Type 0
IsBlank = All (λ c. is_space c ≡ true)

trim_left_by-blank : (p : ℕ → Bool) (s : Text) → All (λ c. p c ≡ true) s → trim_left_by p s ≡ []
unfolding trim_left_by
trim_left_by-blank p [] h = refl
trim_left_by-blank p (c ∷ s) h = rw h.0 (trim_left_by-blank p s h.1)

trim_right_by-eq-nil : (p : ℕ → Bool) (s : Text) → trim_right_by p s ≡ [] → All (λ c. p c ≡ true) s
unfolding trim_right_by
trim_right_by-eq-nil p [] h = tt
trim_right_by-eq-nil p (c ∷ s) h = ground (arith, trim_right_by-eq-nil p s)

trim_left_by-All :
    (p : ℕ → Bool) (s : Text) → All (λ c. p c ≡ true) (trim_left_by p s) → All (λ c. p c ≡ true) s
unfolding trim_left_by
trim_left_by-All p [] h = tt
trim_left_by-All p (c ∷ s) h = ground (arith, trim_left_by-All p s)

-- A text trims to nothing exactly if it is blank.
pub trim_space-eq-nil : (s : Text) → (trim_space s ≡ []) ↔ IsBlank s
unfolding trim_space
trim_space-eq-nil s = (
  λ h. trim_left_by-All is_space s (trim_right_by-eq-nil is_space (trim_left_by is_space s) h),
  λ b. ap (trim_right_by is_space) (trim_left_by-blank is_space s b),
)

-- `bytes.Join(docs, sep)`
unfoldable pub join : Text → List Text → Text
join sep [] = []
join sep (d ∷ []) = d
join sep (d ∷ e ∷ docs) = d ++ sep ++ join sep (e ∷ docs)

-- `strings.HasPrefix`
unfoldable pub has_prefix : Text → Text → Bool
has_prefix s [] = true
has_prefix [] (d ∷ prefix) = false
has_prefix (c ∷ s) (d ∷ prefix) = nat_eq c d && has_prefix s prefix

-- `strings.HasSuffix`
unfoldable pub has_suffix : Text → Text → Bool
unfolding ◌==◌
has_suffix [] suffix = is_empty suffix
has_suffix (c ∷ s) suffix = (c ∷ s) == suffix || has_suffix s suffix
