-- ===== src/Errors/Format/Characters.antt =====
-- What holds of the characters of a formatted text.
use kube_drift.Common.{
  ℕ, ◌≡◌, ◌≢◌, ◌≤◌, Bool, true, false, List, [], ◌∷◌, Text, All, All-append, IsText, is_text,
  IsText-literal, nat_eq, arith, if◌then◌else◌,
}
use kube_drift.Errors.Format.{
  Arg, str, num, decimal, hex_digit, escape, escape_all, quote, arg_text, format, sprintf,
}
use kube_drift.Errors.Format.Decimal.{IsDigit, IsNumeral, decimal-IsNumeral}

-- A property of characters that digits have, and escapes of those that have it.
pub record IsLasting (P : ℕ → Type 0) : Type 0 where
  pub of_digit : (c : ℕ) → IsDigit c → P c
  pub of_quote : P 34
  of_escape : (c : ℕ) → P c → All P (escape c)

abbrev pub AllArg : (ℕ → Type 0) → Arg → Type 0
AllArg P (str s) = All P s
AllArg P (num n) = Unit

module _ {P : ℕ → Type 0} (lasting : IsLasting P) where
  All-escape_all : (s : Text) → All P s → All P (escape_all s)
  unfolding escape_all
  All-escape_all [] h = tt
  All-escape_all (c ∷ s) h =
      All-append _ (escape c) (escape_all s) (lasting.of_escape c h.0) (All-escape_all s h.1)

  All-quote : (s : Text) → All P s → All P (quote s)
  unfolding quote
  All-quote s h = (
    lasting.of_quote,
    All-append _ (escape_all s) (34 ∷ []) (All-escape_all s h) (lasting.of_quote, tt),
  )

  All-digits : (s : Text) → All IsDigit s → All P s
  All-digits [] h = tt
  All-digits (c ∷ s) (digit, rest) = (lasting.of_digit c digit, All-digits s rest)

  All-numeral : (s : Text) → IsNumeral s → All P s
  All-numeral [] h = absurd h
  All-numeral (c ∷ s) h = All-digits (c ∷ s) h

  All-if : (b : Bool) (s t : Text) → All P s → All P t → All P (if b then s else t)
  All-if true s t hs ht = hs
  All-if false s t hs ht = ht

  All-arg_text : (v : ℕ) (a : Arg) → AllArg P a → All P (arg_text v a)
  unfolding arg_text
  All-arg_text v (str s) h = All-if (nat_eq v b'q') (quote s) s (All-quote s h) h
  All-arg_text v (num n) h = All-numeral (decimal n) (decimal-IsNumeral n)

  All-format :
      (verb : Bool) (s : Text) (args : List Arg)
      → All P s
      → All (AllArg P) args
      → All P (format verb s args)
  unfolding format
  All-format true [] args h ha = tt
  All-format false [] args h ha = tt
  All-format false (c ∷ s) args h ha =
      let rest = All-format (nat_eq c b'%') s args h.1 ha in
      All-if (nat_eq c b'%') _ _ rest (h.0, rest)
  All-format true (v ∷ s) [] h ha = All-format false s [] h.1 tt
  All-format true (v ∷ s) (a ∷ args) h ha =
      All-append _ (arg_text v a) (format false s args) (All-arg_text v a ha.0)
        (All-format false s args h.1 ha.1)

  pub All-sprintf :
      (s : Text) (args : List Arg) → All P s → All (AllArg P) args → All P (sprintf s args)
  unfolding sprintf
  All-sprintf s args h ha = All-format false s args h ha

pub IsText-IsLasting : IsLasting (λ c. c ≤ 0x10FFFF)
unfolding escape hex_digit
IsText-IsLasting = record {
  of_digit = λ c h. omega arith;
  of_quote = omega arith;
  of_escape = λ c h. ground arith;
}

pub OneLine-IsLasting : IsLasting (λ c. c ≢ 10)
unfolding escape hex_digit
OneLine-IsLasting = record {
  of_digit = λ c h. omega arith;
  of_quote = omega arith;
  of_escape = λ c h. ground arith;
}

pub IsText-sprintf :
    (s : Text) (args : List Arg)
    → is_text s ≡ true
    → All (AllArg (λ c. c ≤ 0x10FFFF)) args
    → IsText (sprintf s args)
IsText-sprintf s args h ha = All-sprintf IsText-IsLasting s args (IsText-literal s h) ha
