-- ===== src/Notify/Json/Strings.antt =====
-- A reader of JSON strings, and the strings that are marshalled.
use mathlib.Core.List.{append_assoc}
use kube_drift.Common.{
  ℕ, zero, suc, ◌+◌, ◌-◌, ◌*◌, ◌/◌, ◌%◌, ◌≤◌, ◌<◌, ◌≡◌, refl, ap, ◌∙◌, Bool, true, false, Option,
  none, some, [], ◌∷◌, ◌++◌, Text, ltb, nat_eq, ◌||◌, arith, if◌then◌else◌, IsText,
}
use kube_drift.Notify.Json.{hex, unicode_escape, escape, escape_all, encode_string}

-- The digit that a hexadecimal character stands for.
abbrev hex_value : ℕ → Option ℕ
hex_value c =
    if ltb c 48
    then none
    else if ltb c 58
    then some (c - 48)
    else if ltb c 97
    then none
    else if ltb c 103
    then some (c - 87)
    else none

-- The character that stands behind a backslash.
abbrev unescape : ℕ → Option ℕ
unescape c =
    if nat_eq c b'"' || nat_eq c b'\\' || nat_eq c b'/'
    then some c
    else if nat_eq c b'b'
    then some 8
    else if nat_eq c b'f'
    then some 12
    else if nat_eq c b'n'
    then some 10
    else if nat_eq c b'r'
    then some 13
    else if nat_eq c b't'
    then some 9
    else none

-- Within a string: no escape, behind a backslash, or within `\u` with some digits missing.
pub data Mode : Type 0 where
  plain escaped : Mode
  unicode : ℕ → ℕ → Mode

abbrev push : ℕ → Option (Text × Text) → Option (Text × Text)
push c none = none
push c (some (s, rest)) = some (c ∷ s, rest)

-- The string up to its closing quote, and what follows it.
unfoldable pub read_chars : Mode → Text → Option (Text × Text)
read_chars mode [] = none
read_chars plain (c ∷ s) =
    let more = push c (read_chars plain s) in
    let special = read_chars escaped s in
    if nat_eq c 34 then some ([], s) else if nat_eq c 92 then special else more
read_chars escaped (c ∷ s) =
    let wide = read_chars (unicode 3 0) s in
    let more = read_chars plain s in
    if nat_eq c b'u' then wide else elim (unescape c) [ some d ↦ push d more | none ↦ none ]
read_chars (unicode zero n) (c ∷ s) =
    let more = read_chars plain s in
    elim (hex_value c) [ some d ↦ push (n * 16 + d) more | none ↦ none ]
read_chars (unicode (suc k) n) (c ∷ s) =
    let more = λ (d : ℕ). read_chars (unicode k (n * 16 + d)) s in
    elim (hex_value c) [ some d ↦ more d | none ↦ none ]

-- Reading a text gives one character and goes on behind it.
abbrev Spells : ℕ → Text → Type 0
Spells c t = (rest : Text) → read_chars plain (t ++ rest) ≡ push c (read_chars plain rest)

Spells-if :
    (c : ℕ) (b : Bool) (t u : Text)
    → (b ≡ true → Spells c t)
    → (b ≡ false → Spells c u)
    → Spells c (if b then t else u)
Spells-if c true t u by_t by_u = by_t refl
Spells-if c false t u by_t by_u = by_u refl

hex_value-hex : (d : ℕ) → d < 16 → hex_value (hex d) ≡ some d
unfolding hex
hex_value-hex d h = ground arith

Spells-unicode_escape : (c : ℕ) → c < 65536 → Spells c (unicode_escape c)
unfolding unicode_escape read_chars
Spells-unicode_escape c h rest =
    let d3 = hex_value-hex (c / 4096 % 16) (omega arith) in
    let d2 = hex_value-hex (c / 256 % 16) (omega arith) in
    let d1 = hex_value-hex (c / 16 % 16) (omega arith) in
    let d0 = hex_value-hex (c % 16) (omega arith) in
    let whole : (((0 * 16 + c / 4096 % 16) * 16 + c / 256 % 16) * 16 + c / 16 % 16) * 16 + c % 16
        ≡ c =
      omega arith in
    rw d3 (rw d2 (rw d1 (rw d0 (rw whole refl))))

-- A character that stands for itself.
Spells-plain : (c : ℕ) → nat_eq c 34 ≡ false → nat_eq c 92 ≡ false → Spells c (c ∷ [])
unfolding read_chars
Spells-plain c quote backslash rest = rw quote (rw backslash refl)

-- A backslash and a character.
Spells-short : (c d : ℕ) → nat_eq d b'u' ≡ false → unescape d ≡ some c → Spells c (92 ∷ d ∷ [])
unfolding read_chars
Spells-short c d short named rest = rw short (rw named refl)

Spells-escape : (c : ℕ) → c ≤ 0x10FFFF → Spells c (escape c)
unfolding escape
Spells-escape c valid =
    Spells-if c (nat_eq c 34 || nat_eq c 92) _ _
      (λ e. Spells-short c c (ground arith) (ground arith))
      (λ quoted.
        Spells-if c (nat_eq c 8) _ _ (λ e. Spells-short c b'b' refl (ground arith))
          (λ b.
            Spells-if c (nat_eq c 12) _ _ (λ e. Spells-short c b'f' refl (ground arith))
              (λ f.
                Spells-if c (nat_eq c 10) _ _ (λ e. Spells-short c b'n' refl (ground arith))
                  (λ n.
                    Spells-if c (nat_eq c 13) _ _ (λ e. Spells-short c b'r' refl (ground arith))
                      (λ r.
                        Spells-if c (nat_eq c 9) _ _ (λ e. Spells-short c b't' refl (ground arith))
                          (λ t.
                            Spells-if c
                              (ltb c 32
                                || nat_eq c 60
                                || nat_eq c 62
                                || nat_eq c 38
                                || nat_eq c 0x2028
                                || nat_eq c 0x2029)
                              _ _ (λ e. Spells-unicode_escape c (ground arith))
                              (λ printed.
                                Spells-if c (ltb 0x10FFFF c) _ _ (λ big. absurd (ground arith))
                                  (λ small. Spells-plain c (ground arith) (ground arith)))))))))

read_chars-escape_all :
    (s rest : Text) → IsText s → read_chars plain (escape_all s ++ 34 ∷ rest) ≡ some (s, rest)
unfolding read_chars escape_all
read_chars-escape_all [] rest h = refl
read_chars-escape_all (c ∷ s) rest h = rw append_assoc (
    Spells-escape c h.0 (escape_all s ++ 34 ∷ rest)
    ∙ ap (push c) (read_chars-escape_all s rest h.1))

-- A string up to its closing quote, and what follows it.
unfoldable pub read_string : Text → Option (Text × Text)
unfolding read_chars
read_string [] = none
read_string (c ∷ s) = let read = read_chars plain s in if nat_eq c 34 then read else none

-- A marshalled string of code points is read back, whatever follows it.
pub read_string-encode_string :
    (s rest : Text) → IsText s → read_string (encode_string s ++ rest) ≡ some (s, rest)
unfolding read_string encode_string
read_string-encode_string s rest h = rw append_assoc (read_chars-escape_all s rest h)
