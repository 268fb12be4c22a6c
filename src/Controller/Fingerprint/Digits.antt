-- ===== src/Controller/Fingerprint/Digits.antt =====
-- The form of a fingerprint.
use kube_drift.Common.{
  ℕ, ◌*◌, ◌/◌, ◌%◌, ◌≤◌, ◌<◌, ◌≡◌, ◌⊎◌, List, [], ◌∷◌, Text, All, length, arith,
}
use kube_drift.Api.{DriftedResource}
use kube_drift.Libraries.{Crypto}
use kube_drift.Controller.Fingerprint.{hex_digit, hex_encode, drift_hash}
use kube_drift.Controller.Fingerprint.Dedup.{IsDigest}

-- A lower-case hexadecimal digit.
abbrev pub IsHexDigit : ℕ → Type 0
IsHexDigit c = ((48 ≤ c) × (c ≤ 57)) ⊎ (97 ≤ c) × (c ≤ 102)

hex_digit-IsHexDigit : (d : ℕ) → d < 16 → IsHexDigit (hex_digit d)
unfolding hex_digit
hex_digit-IsHexDigit d h = ground arith

hex_encode-IsHexDigit : (bs : List ℕ) → All (λ b. b < 256) bs → All IsHexDigit (hex_encode bs)
unfolding hex_encode
hex_encode-IsHexDigit [] h = tt
hex_encode-IsHexDigit (b ∷ bs) h = (
  hex_digit-IsHexDigit (b / 16) (omega (arith, h.0)),
  (hex_digit-IsHexDigit (b % 16) (omega arith), hex_encode-IsHexDigit bs h.1),
)

length-hex_encode : (bs : List ℕ) → length (hex_encode bs) ≡ 2 * length bs
unfolding hex_encode
length-hex_encode [] = omega arith
length-hex_encode (b ∷ bs) = omega (arith, length-hex_encode bs)

-- Whatever drifts, and however much, a fingerprint is of 64 lower-case hexadecimal digits. A digest
-- is made of bytes, and of 32 of them.
pub length-drift_hash :
    (crypto : Crypto) (ds : List DriftedResource)
    → IsDigest crypto
    → ((t : Text) → length (crypto.sha256 t) ≡ 32)
    → (length (drift_hash crypto ds) ≡ 64) × All IsHexDigit (drift_hash crypto ds)
unfolding drift_hash
length-drift_hash crypto ds digest size =
    (omega (arith, length-hex_encode _, size _), hex_encode-IsHexDigit _ (digest.bytes _))
