-- ===== src/Common/Lines.antt =====
-- The lines of a text.
use Prim.Native.Nat.{ℕ}
use mathlib.Core.Path.{◌≡◌, refl}
use mathlib.Core.Logic.{◌≢◌}
use mathlib.Core.Bool.{Bool, true, false, not, ◌&&◌}
use mathlib.Core.List.{List, [], ◌∷◌, ◌++◌}
use native.Mathlib.Omega.{arith}
use kube_drift.Common.Tests.{nat_eq, if◌then◌else◌}
use kube_drift.Common.Lists.{All}
use kube_drift.Common.Strings.{Text}

abbrev pub IsOneLine : Text → Type 0
IsOneLine = All (λ c. c ≢ 10)

abbrev pub one_line : Text → Bool
one_line [] = true
one_line (c ∷ s) = not (nat_eq c 10) && one_line s

pub IsOneLine-literal : (s : Text) → one_line s ≡ true → IsOneLine s
IsOneLine-literal [] h = tt
IsOneLine-literal (c ∷ s) h = (ground arith, IsOneLine-literal s (ground arith))

abbrev begun : ℕ → List Text → List Text
begun c [] = (c ∷ []) ∷ []
begun c (l ∷ ls) = (c ∷ l) ∷ ls

-- `strings.Split(s, "\n")`
unfoldable pub lines : Text → List Text
lines [] = [] ∷ []
lines (c ∷ s) = let rest = lines s in if nat_eq c 10 then [] ∷ rest else begun c rest

pub lines-line : (s : Text) → IsOneLine s → lines s ≡ s ∷ []
unfolding lines
lines-line [] h = refl
lines-line (c ∷ s) (ordinary, more) =
    let other : nat_eq c 10 ≡ false = ground arith in rw (other, lines-line s more) refl

pub lines-append : (s t : Text) → IsOneLine s → lines (s ++ 10 ∷ t) ≡ s ∷ lines t
unfolding lines
lines-append [] t h = refl
lines-append (c ∷ s) t (ordinary, more) =
    let other : nat_eq c 10 ≡ false = ground arith in rw (other, lines-append s t more) refl
