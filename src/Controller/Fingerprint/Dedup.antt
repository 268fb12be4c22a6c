-- ===== src/Controller/Fingerprint/Dedup.antt =====
-- Which sets of drifted resources have one fingerprint.
use mathlib.Core.List.Perm
use kube_drift.Common.{
  ℕ, ◌/◌, ◌%◌, ◌<◌, ◌≡◌, refl, ap, ◌≢◌, ◌⊎◌, inl, inr, List, [], ◌∷◌, Text, Perm, All, Bool-cases,
  arith, ◌==◌, eq_of_==, eq_refl, sort_strings, sort_strings_cong,
}
use kube_drift.Api.{DriftedResource}
use kube_drift.Libraries.{Crypto}
use kube_drift.Controller.Fingerprint.{
  drift_key, drift_keys, hash_input, hex_digit, hex_encode, drift_hash,
}
use kube_drift.Controller.Fingerprint.Keys.{IsClean, perm_of_hash_input}

-- A digest is made of bytes, and is not empty.
pub record IsDigest (crypto : Crypto) : Type 0 where
  pub bytes : (t : Text) → All (λ b. b < 256) (crypto.sha256 t)
  pub nonempty : (t : Text) → crypto.sha256 t ≢ []

-- Two texts with one digest.
abbrev pub Collision : Crypto → Type 0
Collision crypto = (s : Text) × (t : Text) × (s ≢ t) × (crypto.sha256 s ≡ crypto.sha256 t)

hex_digit_inj : (a b : ℕ) → a < 16 → b < 16 → hex_digit a ≡ hex_digit b → a ≡ b
unfolding hex_digit
hex_digit_inj a b ha hb e = ground arith

byte_of_digits : (a b : ℕ) → a / 16 ≡ b / 16 → a % 16 ≡ b % 16 → a ≡ b
byte_of_digits a b h k = omega arith

hex_encode_inj :
    (xs ys : List ℕ)
    → All (λ b. b < 256) xs
    → All (λ b. b < 256) ys
    → hex_encode xs ≡ hex_encode ys
    → xs ≡ ys
unfolding hex_encode
hex_encode_inj [] [] hx hy e = refl
hex_encode_inj [] (y ∷ ys) hx hy e = cc
hex_encode_inj (x ∷ xs) [] hx hy e = cc
hex_encode_inj (x ∷ xs) (y ∷ ys) hx hy e =
    let high : hex_digit (x / 16) ≡ hex_digit (y / 16) = cc in
    let low : hex_digit (x % 16) ≡ hex_digit (y % 16) = cc in
    let rest : hex_encode xs ≡ hex_encode ys = cc in
    let same =
      byte_of_digits x y (hex_digit_inj (x / 16) (y / 16) (omega arith) (omega arith) high)
        (hex_digit_inj (x % 16) (y % 16) (omega arith) (omega arith) low) in
    cc (same, hex_encode_inj xs ys hx.1 hy.1 rest)

hex_encode-eq-nil : (xs : List ℕ) → hex_encode xs ≡ [] → xs ≡ []
unfolding hex_encode
hex_encode-eq-nil [] e = refl
hex_encode-eq-nil (x ∷ xs) e = cc

-- The order in which the engine lists the drifted resources does not change the fingerprint.
pub drift_hash-perm :
    (crypto : Crypto) (ds es : List DriftedResource)
    → Perm ds es
    → drift_hash crypto ds ≡ drift_hash crypto es
unfolding drift_hash drift_keys
drift_hash-perm crypto ds es p =
    ap (λ ks. hex_encode (crypto.sha256 (hash_input ks))) (sort_strings_cong (Perm.map drift_key p))

-- Equal fingerprints of clean resources come from the same set of them, with as many copies of each,
-- or show a collision. A digest is made of bytes.
pub perm_of_drift_hash :
    (crypto : Crypto) (ds es : List DriftedResource)
    → IsDigest crypto
    → All IsClean ds
    → All IsClean es
    → drift_hash crypto ds ≡ drift_hash crypto es
    → Perm ds es ⊎ Collision crypto
unfolding drift_hash
perm_of_drift_hash crypto ds es digest hd he e =
    let s = hash_input (sort_strings (drift_keys ds)) in
    let t = hash_input (sort_strings (drift_keys es)) in
    let same = hex_encode_inj _ _ (digest.bytes s) (digest.bytes t) e in
    elim (Bool-cases (s == t)) [
      | inl h ↦ inl (perm_of_hash_input ds es hd he (eq_of_== s t h))
      | inr h ↦ inr (s, t, λ st. cc (ap (λ u. s == u) st, eq_refl s, h), same)
    ]

-- The fingerprint of a set, the empty one too, is not the mark of a check that was never notified.
pub drift_hash-ne-nil :
    (crypto : Crypto) (ds : List DriftedResource) → IsDigest crypto → drift_hash crypto ds ≢ []
unfolding drift_hash
drift_hash-ne-nil crypto ds digest e = digest.nonempty _ (hex_encode-eq-nil _ e)
