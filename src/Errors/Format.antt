-- ===== src/Errors/Format.antt =====
-- `fmt.Sprintf` with the verbs %s, %d, %q, %v and %w.
pub mod Decimal
pub mod Characters
use kube_drift.Common.{
  ℕ, zero, suc, ◌+◌, ◌/◌, ◌%◌, Bool, true, false, List, [], ◌∷◌, ◌++◌, Text, text, ◌≡◌, refl, ltb,
  nat_eq, if◌then◌else◌, ◌||◌,
}

pub data Arg : Type 0 where
  str : Text → Arg
  num : ℕ → Arg

-- `%d` of an int that is not negative, on fuel: `n < fuel` is enough.
decimal_digits : ℕ → ℕ → Text → Text
decimal_digits zero n acc = acc
decimal_digits (suc fuel) n acc =
    let more = decimal_digits fuel (n / 10) ((48 + n % 10) ∷ acc) in
    if ltb n 10 then (48 + n) ∷ acc else more

unfoldable pub decimal : ℕ → Text
unfolding decimal_digits
decimal n = decimal_digits (suc n) n []

hex_digit : ℕ → ℕ
hex_digit d = if ltb d 10 then 48 + d else 87 + d

-- One code point of a `%q` text. Every code point from 0x80 on is taken for printable.
escape : ℕ → Text
unfolding hex_digit
escape c =
    if nat_eq c 34 || nat_eq c 92
    then 92 ∷ c ∷ []
    else if nat_eq c 7
    then text "\\a"
    else if nat_eq c 8
    then text "\\b"
    else if nat_eq c 9
    then text "\\t"
    else if nat_eq c 10
    then text "\\n"
    else if nat_eq c 11
    then text "\\v"
    else if nat_eq c 12
    then text "\\f"
    else if nat_eq c 13
    then text "\\r"
    else if ltb c 32 || nat_eq c 127
    then text "\\x" ++ hex_digit (c / 16) ∷ hex_digit (c % 16) ∷ []
    else c ∷ []

escape_all : Text → Text
unfolding escape
escape_all [] = []
escape_all (c ∷ s) = escape c ++ escape_all s

unfoldable pub quote : Text → Text
unfolding escape_all
quote s = 34 ∷ escape_all s ++ 34 ∷ []

-- An argument under the verb `v`.
unfoldable pub arg_text : ℕ → Arg → Text
unfolding quote decimal
arg_text v (str s) = if nat_eq v b'q' then quote s else s
arg_text v (num n) = decimal n

-- The flag is set behind a `%`. The source's formats have one argument for each verb.
format : Bool → Text → List Arg → Text
format verb [] args = []
format false (c ∷ s) args =
    let rest = format (nat_eq c b'%') s args in if nat_eq c b'%' then rest else c ∷ rest
format true (v ∷ s) [] = format false s []
format true (v ∷ s) (a ∷ args) = arg_text v a ++ format false s args

unfoldable pub sprintf : Text → List Arg → Text
unfolding format arg_text
sprintf s args = format false s args

test_sprintf :
    sprintf (text "key %q in %s: %d") (str (text "a\"b") ∷ str (text "ns") ∷ num 120 ∷ [])
    ≡ text "key \"a\\\"b\" in ns: 120"
unfolding sprintf
test_sprintf = refl
