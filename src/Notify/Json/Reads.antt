-- ===== src/Notify/Json/Reads.antt =====
-- What it means that a value is read, and the values without parts.
use kube_drift.Common.{
  IsText, ℕ, zero, suc, ◌+◌, ◌*◌, ◌<◌, ◌≡◌, refl, ap, Bool, true, false, some, [], ◌∷◌, ◌++◌, Text,
  All, arith, length,
}
use kube_drift.Errors.Format.{decimal}
use kube_drift.Errors.Format.Decimal.{read_decimal-decimal, IsDigit, IsNumeral, decimal-IsNumeral}
use kube_drift.Notify.Json.{
  Json, string, number, bool, array, object, Items, nil, cons, Members, end, member, marshal,
  marshal_items, marshal_members, encode_string,
}
use kube_drift.Notify.Json.Strings.{read_string-encode_string}
use kube_drift.Notify.Json.Reader.{
  read_number, NoDigit, read_number-digits, start, expect, read_value, read_items, read_members,
  digit, mapped,
}

-- The strings of a value are Unicode.
unfoldable mutual
  pub IsUnicode : Json → Type 0
  IsUnicode (string s) = IsText s
  IsUnicode (number n) = Unit
  IsUnicode (bool b) = Unit
  IsUnicode (array items) = AllItems items
  IsUnicode (object ms) = AllMembers ms

  pub AllItems : Items → Type 0
  AllItems nil = Unit
  AllItems (cons j items) = IsUnicode j × AllItems items

  pub AllMembers : Members → Type 0
  AllMembers end = Unit
  AllMembers (member k j ms) = IsText k × IsUnicode j × AllMembers ms

-- With fuel above twice the length of the text.
abbrev pub ReadsValue : Json → Type 0
ReadsValue j =
    IsUnicode j
    → (rest : Text) → NoDigit rest
    → (f : ℕ) → 2 * length (marshal j) < f
    → read_value f (marshal j ++ rest) ≡ some (j, rest)

abbrev pub ReadsSome : Items → Type 0
ReadsSome items =
    AllItems items
    → (rest : Text) (f : ℕ) → 2 * length (marshal_items items) + 1 < f
    → read_items f (marshal_items items ++ 93 ∷ rest) ≡ some (items, rest)

-- Items are read if there are some, and behind another.
abbrev pub ReadsItems : Items → Type 0
ReadsItems nil = (j : Json) → ReadsValue j → ReadsSome (cons j nil)
ReadsItems (cons k items) =
    ReadsSome (cons k items) × ((j : Json) → ReadsValue j → ReadsSome (cons j (cons k items)))

abbrev pub ReadsAny : Members → Type 0
ReadsAny ms =
    AllMembers ms
    → (rest : Text) (f : ℕ) → 2 * length (marshal_members ms) + 1 < f
    → read_members f (marshal_members ms ++ 125 ∷ rest) ≡ some (ms, rest)

abbrev pub ReadsMembers : Members → Type 0
ReadsMembers end = (k : Text) (j : Json) → ReadsValue j → ReadsAny (member k j end)
ReadsMembers (member k' j' ms) =
    ReadsAny (member k' j' ms)
    × ((k : Text) (j : Json) → ReadsValue j → ReadsAny (member k j (member k' j' ms)))

-- To spend a unit of fuel: more than some bound is no zero.
pub with_unit {κ} :
    {bound : ℕ} (Goal : ℕ → Type κ)
    → ((left : ℕ) → bound < suc left → Goal (suc left))
    → (fuel : ℕ) → bound < fuel
    → Goal fuel
with_unit Goal run (suc left) enough = run left enough
with_unit Goal run zero enough = absurd (omega arith)

start-digit : (c : ℕ) → IsDigit c → start c ≡ digit
start-digit c h = ground (arith, h)

read_value-numeral :
    (t : Text) (n : ℕ) (rest : Text) (f : ℕ)
    → IsNumeral t
    → read_number 0 (t ++ rest) ≡ (n, rest)
    → read_value (suc f) (t ++ rest) ≡ some (number n, rest)
unfolding read_value
read_value-numeral [] n rest f numeral read = absurd numeral
read_value-numeral (c ∷ t) n rest f numeral read =
    rw (read_value, start-digit c numeral.0, read) refl

All-IsNumeral : (t : Text) → IsNumeral t → All IsDigit t
All-IsNumeral (c ∷ t) h = h
All-IsNumeral [] h = absurd h

pub ReadsValue-number : (n : ℕ) → ReadsValue (number n)
unfolding marshal
ReadsValue-number n = λ _ rest stop. with_unit _ λ f less.
    let numeral = decimal-IsNumeral n in
    let read = read_number-digits (decimal n) 0 rest (All-IsNumeral _ numeral) stop in
    read_value-numeral (decimal n) n rest f numeral (rw read_decimal-decimal at read)

pub ReadsValue-string : (s : Text) → ReadsValue (string s)
unfolding read_value marshal encode_string IsUnicode
ReadsValue-string s h rest stop =
    with_unit _ λ f less. ap (mapped string) (read_string-encode_string s rest h)

pub ReadsValue-bool : (b : Bool) → ReadsValue (bool b)
unfolding read_value marshal expect
ReadsValue-bool true = λ _ rest stop. with_unit _ λ f less. refl
ReadsValue-bool false = λ _ rest stop. with_unit _ λ f less. refl
