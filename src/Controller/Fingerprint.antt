-- ===== src/Controller/Fingerprint.antt =====
-- `driftHash` of internal/controller/notify.go
pub mod Keys
pub mod Dedup
pub mod Digits
use kube_drift.Common.{
  ℕ, ◌+◌, ◌/◌, ◌%◌, List, [], ◌∷◌, ◌++◌, map, Text, text, ltb, sort_strings, if◌then◌else◌,
}
use kube_drift.Api.{DriftedResource}
use kube_drift.Libraries.{Crypto}

-- `fmt.Sprintf("%s|%s|%s|%s|%s", ...)`
unfoldable pub drift_key : DriftedResource → Text
drift_key d =
    d.api_version ++ (b'|' ∷ d.kind ++ (b'|' ∷ d.namespace ++ (b'|' ∷ d.name ++ (b'|' ∷ d.status))))

unfoldable pub drift_keys : List DriftedResource → List Text
unfolding drift_key
drift_keys = map drift_key

-- What is written to the hash: each key and a zero byte.
unfoldable pub hash_input : List Text → Text
hash_input [] = []
hash_input (k ∷ ks) = k ++ (0 ∷ hash_input ks)

unfoldable pub hex_digit : ℕ → ℕ
hex_digit d = if ltb d 10 then 48 + d else 87 + d

-- `hex.EncodeToString`
unfoldable pub hex_encode : List ℕ → Text
unfolding hex_digit
hex_encode [] = []
hex_encode (b ∷ bs) = hex_digit (b / 16) ∷ hex_digit (b % 16) ∷ hex_encode bs

unfoldable pub drift_hash : Crypto → List DriftedResource → Text
unfolding drift_keys hash_input hex_encode
drift_hash crypto drifted =
    hex_encode (crypto.sha256 (hash_input (sort_strings (drift_keys drifted))))
