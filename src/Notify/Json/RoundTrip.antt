-- ===== src/Notify/Json/RoundTrip.antt =====
-- Reading what was marshalled.
use mathlib.Core.List.{append_assoc, append-nil}
use kube_drift.Common.{
  ℕ, suc, ◌+◌, ◌*◌, ◌<◌, ◌≡◌, refl, ap, true, false, Option, none, some, [], ◌∷◌, ◌++◌, Text, text,
  arith, length, length-append,
}
use kube_drift.Errors.Format.{decimal}
use kube_drift.Errors.Format.Decimal.{IsNumeral, decimal-IsNumeral}
use kube_drift.Notify.Json.{
  Json, string, number, bool, array, object, Items, nil, cons, Members, end, member, marshal,
  marshal_items, marshal_members, encode_string,
}
use kube_drift.Notify.Json.Strings.{read_string, read_string-encode_string}
use kube_drift.Notify.Json.Reader.{NoDigit, expect, read_value, read_items, read_members}
use kube_drift.Notify.Json.Reads.{
  IsUnicode, AllItems, AllMembers, ReadsValue, ReadsSome, ReadsItems, ReadsAny, ReadsMembers,
  with_unit, ReadsValue-number, ReadsValue-string, ReadsValue-bool,
}

-- A value does not start with a closing bracket.
expect-numeral : (t rest : Text) → IsNumeral t → expect (text "]") (t ++ rest) ≡ none
unfolding expect
expect-numeral [] rest numeral = absurd numeral
expect-numeral (c ∷ t) rest numeral = ground (arith, numeral.0)

expect-marshal : (j : Json) (rest : Text) → expect (text "]") (marshal j ++ rest) ≡ none
unfolding expect marshal encode_string
expect-marshal (number n) rest = expect-numeral (decimal n) rest (decimal-IsNumeral n)
expect-marshal (string s) rest = refl
expect-marshal (bool true) rest = refl
expect-marshal (bool false) rest = refl
expect-marshal (array items) rest = refl
expect-marshal (object ms) rest = refl

module _ (j : Json) (reads : ReadsValue j) where
  ReadsSome-one : ReadsSome (cons j nil)
  unfolding read_items marshal AllItems expect
  ReadsSome-one h rest =
      with_unit _ λ f less. let read = reads h.0 (93 ∷ rest) refl f (omega arith) in rw read refl

  ReadsSome-more :
      (k : Json) (items : Items) → ReadsSome (cons k items) → ReadsSome (cons j (cons k items))
  unfolding read_items marshal AllItems expect
  ReadsSome-more k items more h rest = with_unit _ λ f less.
      let t = marshal_items (cons k items) in
      let size = length-append (marshal j) (44 ∷ t) in
      let read = reads h.0 (44 ∷ (t ++ 93 ∷ rest)) refl f (omega (arith, size)) in
      let later = more h.1 rest f (omega (arith, size)) in rw append_assoc (rw read (rw later refl))

-- The first member is a string, which is no closing brace.
expect-encode_string : (k rest : Text) → expect (text "}") (encode_string k ++ rest) ≡ none
unfolding expect encode_string
expect-encode_string k rest = refl

expect-marshal_members :
    (k : Text) (j : Json) (ms : Members) (rest : Text)
    → expect (text "}") (marshal_members (member k j ms) ++ rest) ≡ none
unfolding expect marshal encode_string
expect-marshal_members k j end rest = refl
expect-marshal_members k j (member k' j' ms) rest = refl

-- The last member, and one that others follow, by the texts of its key and its value.
read_members-last :
    (key v rest : Text) (k : Text) (j : Json) (f : ℕ)
    → read_string (key ++ 58 ∷ (v ++ 125 ∷ rest)) ≡ some (k, 58 ∷ (v ++ 125 ∷ rest))
    → read_value f (v ++ 125 ∷ rest) ≡ some (j, 125 ∷ rest)
    → read_members (suc f) ((key ++ 58 ∷ v) ++ 125 ∷ rest) ≡ some (member k j end, rest)
unfolding read_members expect
read_members-last key v rest k j f of_key of_value = rw append_assoc (rw of_key (rw of_value refl))

read_members-next :
    (key v t rest : Text) (k : Text) (j : Json) (ms : Members) (f : ℕ)
    → read_string (key ++ 58 ∷ (v ++ 44 ∷ (t ++ 125 ∷ rest)))
      ≡ some (k, 58 ∷ (v ++ 44 ∷ (t ++ 125 ∷ rest)))
    → read_value f (v ++ 44 ∷ (t ++ 125 ∷ rest)) ≡ some (j, 44 ∷ (t ++ 125 ∷ rest))
    → read_members f (t ++ 125 ∷ rest) ≡ some (ms, rest)
    → read_members (suc f) ((key ++ 58 ∷ (v ++ 44 ∷ t)) ++ 125 ∷ rest) ≡ some (member k j ms, rest)
unfolding read_members expect
read_members-next key v t rest k j ms f of_key of_value of_rest =
    rw append_assoc (rw append_assoc (rw of_key (rw of_value (rw of_rest refl))))

module _ (k : Text) (j : Json) (reads : ReadsValue j) where
  ReadsAny-one : ReadsAny (member k j end)
  unfolding marshal AllMembers
  ReadsAny-one h rest = with_unit _ λ f less.
      let size = length-append (encode_string k) (58 ∷ marshal j) in
      read_members-last (encode_string k) (marshal j) rest k j f (read_string-encode_string k _ h.0)
        (reads h.1 (125 ∷ rest) refl f (omega (arith, size)))

  ReadsAny-more :
      (k' : Text) (j' : Json) (ms : Members)
      → ReadsAny (member k' j' ms)
      → ReadsAny (member k j (member k' j' ms))
  unfolding marshal AllMembers
  ReadsAny-more k' j' ms more h rest = with_unit _ λ f less.
      let t = marshal_members (member k' j' ms) in
      let size = length-append (encode_string k) (58 ∷ (marshal j ++ 44 ∷ t)) in
      let tail = length-append (marshal j) (44 ∷ t) in
      read_members-next (encode_string k) (marshal j) t rest k j (member k' j' ms) f
        (read_string-encode_string k _ h.0) (reads h.1 _ refl f (omega (arith, size, tail)))
        (more h.2 rest f (omega (arith, size, tail)))

expect-marshal_items :
    (j : Json) (items : Items) (rest : Text)
    → expect (text "]") (marshal_items (cons j items) ++ rest) ≡ none
unfolding marshal
expect-marshal_items j nil rest = expect-marshal j rest
expect-marshal_items j (cons k items) rest = rw append_assoc (expect-marshal j _)

-- Items or members behind the bracket or brace that opens them.
read_value-array :
    (t rest : Text) (items : Items) (f : ℕ)
    → expect (text "]") (t ++ 93 ∷ rest) ≡ none
    → read_items f (t ++ 93 ∷ rest) ≡ some (items, rest)
    → read_value (suc f) (91 ∷ ((t ++ 93 ∷ []) ++ rest)) ≡ some (array items, rest)
unfolding read_value
read_value-array t rest items f more read = rw append_assoc (rw (read_value, more, read) refl)

read_value-object :
    (t rest : Text) (ms : Members) (f : ℕ)
    → expect (text "}") (t ++ 125 ∷ rest) ≡ none
    → read_members f (t ++ 125 ∷ rest) ≡ some (ms, rest)
    → read_value (suc f) (123 ∷ ((t ++ 125 ∷ []) ++ rest)) ≡ some (object ms, rest)
unfolding read_value
read_value-object t rest ms f more read = rw append_assoc (rw (read_value, more, read) refl)

ReadsValue-array : (items : Items) → ReadsItems items → ReadsValue (array items)
unfolding read_value marshal IsUnicode expect
ReadsValue-array nil reads h rest stop = with_unit _ λ f less. refl
ReadsValue-array (cons j items) reads h rest stop = with_unit _ λ f less.
    let t = marshal_items (cons j items) in
    let size = length-append t (93 ∷ []) in
    read_value-array t rest (cons j items) f (expect-marshal_items j items _)
      (reads.0 h rest f (omega (arith, size)))

ReadsValue-object : (ms : Members) → ReadsMembers ms → ReadsValue (object ms)
unfolding read_value marshal IsUnicode expect
ReadsValue-object end reads h rest stop = with_unit _ λ f less. refl
ReadsValue-object (member k j ms) reads h rest stop = with_unit _ λ f less.
    let t = marshal_members (member k j ms) in
    let size = length-append t (125 ∷ []) in
    read_value-object t rest (member k j ms) f (expect-marshal_members k j ms _)
      (reads.0 h rest f (omega (arith, size)))

ReadsItems-cons :
    (k : Json) (items : Items) → ReadsValue k → ReadsItems items → ReadsItems (cons k items)
ReadsItems-cons k nil reads more =
    (more k reads, λ j first. ReadsSome-more j first k nil (more k reads))
ReadsItems-cons k (cons l items) reads more =
    let rest = more.1 k reads in (rest, λ j first. ReadsSome-more j first k (cons l items) rest)

ReadsMembers-member :
    (k : Text) (j : Json) (ms : Members)
    → ReadsValue j
    → ReadsMembers ms
    → ReadsMembers (member k j ms)
ReadsMembers-member k j end reads more =
    (more k j reads, λ l i first. ReadsAny-more l i first k j end (more k j reads))
ReadsMembers-member k j (member k' j' ms) reads more =
    let rest = more.1 k j reads in
    (rest, λ l i first. ReadsAny-more l i first k j (member k' j' ms) rest)

read_value-Reads : (j : Json) → ReadsValue j
read_value-Reads j = elim j as ReadsValue ReadsItems ReadsMembers [
  | string s ↦ ReadsValue-string s
  | number n ↦ ReadsValue-number n
  | bool b ↦ ReadsValue-bool b
  | array (items → ih) ↦ ReadsValue-array items ih
  | object (ms → ih) ↦ ReadsValue-object ms ih
  | nil ↦ ReadsSome-one
  | cons (k → ih) (items → ihs) ↦ ReadsItems-cons k items ih ihs
  | end ↦ ReadsAny-one
  | member k (j → ih) (ms → ihs) ↦ ReadsMembers-member k j ms ih ihs
]

-- With fuel above twice the length of a marshalled value, the reader reads that value back, and
-- leaves what follows it, which starts with no digit. The value's strings are Unicode.
pub read_value-marshal :
    (j : Json) (rest : Text) (f : ℕ)
    → IsUnicode j
    → NoDigit rest
    → 2 * length (marshal j) < f
    → read_value f (marshal j ++ rest) ≡ some (j, rest)
read_value-marshal j rest f h stop = read_value-Reads j h rest stop f

-- The value that a whole text spells.
abbrev whole : Option (Json × Text) → Option Json
whole (some (j, [])) = some j
whole _ = none

unfoldable pub parse : Text → Option Json
parse t = whole (read_value (2 * length t + 1) t)

-- Parsing a marshalled value gives that value. Its strings are Unicode.
pub parse-marshal : (j : Json) → IsUnicode j → parse (marshal j) ≡ some j
unfolding parse
parse-marshal j h =
    let read = read_value-marshal j [] (2 * length (marshal j) + 1) h tt (omega arith) in
    ap whole (rw append-nil at read)
