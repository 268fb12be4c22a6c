-- ===== src/Notify/Json.antt =====
-- `json.Marshal` of what internal/notify/notify.go marshals: objects, lists, strings, ints, bools.
pub mod Strings
pub mod Reader
pub mod Reads
pub mod RoundTrip
use kube_drift.Common.{
  ℕ, ◌+◌, ◌/◌, ◌%◌, Bool, true, false, [], ◌∷◌, ◌++◌, Text, text, ltb, nat_eq, ◌||◌, if◌then◌else◌,
}
use kube_drift.Errors.Format.{decimal}

mutual
  pub data Json : Type 0 where
    string : Text → Json
    number : ℕ → Json
    bool : Bool → Json
    array : Items → Json
    object : Members → Json

  pub data Items : Type 0 where
    nil : Items
    cons : Json → Items → Items

  pub data Members : Type 0 where
    end : Members
    member : Text → Json → Members → Members

hex : ℕ → ℕ
hex d = if ltb d 10 then 48 + d else 87 + d

unicode_escape : ℕ → Text
unfolding hex
unicode_escape c =
    text "\\u" ++ hex (c / 4096 % 16) ∷ hex (c / 256 % 16) ∷ hex (c / 16 % 16) ∷ hex (c % 16) ∷ []

-- One code point of a string: HTML characters and line separators are escaped too, and a byte that
-- is no valid UTF-8 is replaced.
escape : ℕ → Text
unfolding unicode_escape
escape c =
    if nat_eq c 34 || nat_eq c 92
    then 92 ∷ c ∷ []
    else if nat_eq c 8
    then text "\\b"
    else if nat_eq c 12
    then text "\\f"
    else if nat_eq c 10
    then text "\\n"
    else if nat_eq c 13
    then text "\\r"
    else if nat_eq c 9
    then text "\\t"
    else if ltb c 32
        || nat_eq c 60
        || nat_eq c 62
        || nat_eq c 38
        || nat_eq c 0x2028
        || nat_eq c 0x2029
    then unicode_escape c
    else if ltb 0x10FFFF c
    then text "\\ufffd"
    else c ∷ []

escape_all : Text → Text
unfolding escape
escape_all [] = []
escape_all (c ∷ s) = escape c ++ escape_all s

pub encode_string : Text → Text
unfolding escape_all
encode_string s = 34 ∷ (escape_all s ++ 34 ∷ [])

unfoldable mutual
  unfolding encode_string decimal

  pub marshal : Json → Text
  marshal (string s) = encode_string s
  marshal (number n) = decimal n
  marshal (bool true) = text "true"
  marshal (bool false) = text "false"
  marshal (array items) = b'[' ∷ (marshal_items items ++ b']' ∷ [])
  marshal (object ms) = b'{' ∷ (marshal_members ms ++ b'}' ∷ [])

  pub marshal_items : Items → Text
  marshal_items nil = []
  marshal_items (cons j nil) = marshal j
  marshal_items (cons j (cons k rest)) = marshal j ++ b',' ∷ marshal_items (cons k rest)

  pub marshal_members : Members → Text
  marshal_members end = []
  marshal_members (member k j end) = encode_string k ++ b':' ∷ marshal j
  marshal_members (member k j (member k' j' rest)) =
      encode_string k ++ b':' ∷ (marshal j ++ b',' ∷ marshal_members (member k' j' rest))
