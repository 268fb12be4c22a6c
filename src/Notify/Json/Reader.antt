-- ===== src/Notify/Json/Reader.antt =====
-- A reader of JSON, on fuel, and the values that are marshalled.
use kube_drift.Common.{
  ℕ, zero, suc, ◌+◌, ◌-◌, ◌*◌, ◌≡◌, refl, Bool, true, false, Option, none, some, [], ◌∷◌, ◌++◌,
  Text, text, leb, nat_eq, ◌&&◌, All, arith, if◌then◌else◌,
}
use kube_drift.Errors.Format.Decimal.{read_digits, IsDigit}
use kube_drift.Notify.Json.{
  Json, string, number, bool, array, object, Items, nil, cons, Members, end, member,
}
use kube_drift.Notify.Json.Strings.{read_string}

abbrev pub is_digit : ℕ → Bool
is_digit c = leb 48 c && leb c 57

-- The number that digits spell behind a number, and what follows it.
unfoldable pub read_number : ℕ → Text → ℕ × Text
read_number n [] = (n, [])
read_number n (c ∷ s) =
    let more = read_number (10 * n + (c - 48)) s in if is_digit c then more else (n, c ∷ s)

-- What may follow a number.
abbrev pub NoDigit : Text → Type 0
NoDigit [] = Unit
NoDigit (c ∷ s) = is_digit c ≡ false

read_number-end : (n : ℕ) (rest : Text) → NoDigit rest → read_number n rest ≡ (n, rest)
unfolding read_number
read_number-end n [] h = refl
read_number-end n (c ∷ s) h = rw h refl

pub read_number-digits :
    (ds : Text) (n : ℕ) (rest : Text)
    → All IsDigit ds
    → NoDigit rest
    → read_number n (ds ++ rest) ≡ (read_digits n ds, rest)
unfolding read_number
read_number-digits [] n rest h stop = read_number-end n rest stop
read_number-digits (d ∷ ds) n rest h stop =
    let digit : is_digit d ≡ true = ground (arith, h.0) in
    rw digit (read_number-digits ds _ rest h.1 stop)

-- What a value starts with.
pub data Start : Type 0 where
  quote bracket brace true_word false_word digit unknown : Start

abbrev pub start : ℕ → Start
start c =
    if nat_eq c b'"'
    then quote
    else if nat_eq c b'['
    then bracket
    else if nat_eq c b'{'
    then brace
    else if nat_eq c b't'
    then true_word
    else if nat_eq c b'f'
    then false_word
    else if is_digit c
    then digit
    else unknown

-- The rest of a text behind a prefix.
unfoldable pub expect : Text → Text → Option Text
expect [] s = some s
expect (c ∷ p) [] = none
expect (c ∷ p) (d ∷ s) = let more = expect p s in if nat_eq c d then more else none

abbrev pub Read : Type 0 → Type 0
Read A = Option (A × Text)

module _ {A B : Type 0} where
  abbrev pub then_read : Read A → (A → Text → Read B) → Read B
  then_read none k = none
  then_read (some (a, s)) k = k a s

  abbrev pub mapped : (A → B) → Read A → Read B
  mapped f none = none
  mapped f (some (a, s)) = some (f a, s)

abbrev pub after : {A : Type 0} → A → Option Text → Read A
after a none = none
after a (some s) = some (a, s)

-- A value at the front of a text, and what follows it. Each call costs a unit of fuel.
unfoldable mutual
  unfolding read_number expect read_string

  pub read_value : ℕ → Text → Read Json
  read_value zero s = none
  read_value (suc f) [] = none
  read_value (suc f) (c ∷ s) = elim (start c) [
    | quote ↦ mapped string (read_string (c ∷ s))
    | bracket ↦
        let items = mapped array (read_items f s) in
        elim (expect (text "]") s) [ some rest ↦ some (array nil, rest) | none ↦ items ]
    | brace ↦
        let members = mapped object (read_members f s) in
        elim (expect (text "}") s) [ some rest ↦ some (object end, rest) | none ↦ members ]
    | true_word ↦ after (bool true) (expect (text "rue") s)
    | false_word ↦ after (bool false) (expect (text "alse") s)
    | digit ↦ let (n, rest) = read_number 0 (c ∷ s) in some (number n, rest)
    | unknown ↦ none
  ]

  -- One item or more, up to the closing bracket.
  pub read_items : ℕ → Text → Read Items
  read_items zero s = none
  read_items (suc f) s = then_read (read_value f s) (λ j rest. elim (expect (text ",") rest) [
    | some rest ↦ mapped (cons j) (read_items f rest)
    | none ↦ after (cons j nil) (expect (text "]") rest)
  ])

  -- One member or more, up to the closing brace.
  pub read_members : ℕ → Text → Read Members
  read_members zero s = none
  read_members (suc f) s = then_read (read_string s) (λ k rest. elim (expect (text ":") rest) [
    | none ↦ none
    | some rest ↦ then_read (read_value f rest) (λ j rest. elim (expect (text ",") rest) [
      | some rest ↦ mapped (member k j) (read_members f rest)
      | none ↦ after (member k j end) (expect (text "}") rest)
    ])
  ])
