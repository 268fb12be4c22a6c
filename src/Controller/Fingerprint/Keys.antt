-- ===== src/Controller/Fingerprint/Keys.antt =====
-- Reading the key of a drifted resource, and the hashed stream of keys, back.
use kube_drift.Common.{
  ℕ, ◌≡◌, refl, ap, Bool, true, false, List, [], ◌∷◌, ◌++◌, Text, nat_eq, All, arith, if◌then◌else◌,
  map, Perm, sort_strings, sort_strings-perm, sort_strings-All,
}
use mathlib.Core.List.Perm
use kube_drift.Api.{DriftedResource}
use kube_drift.Controller.Fingerprint.{drift_key, drift_keys, hash_input}

-- A character does not occur.
abbrev pub Without : ℕ → Text → Type 0
Without c = All (λ d. nat_eq d c ≡ false)

-- What stands before and behind the first `c`.
abbrev split_first : ℕ → Text → Text × Text
split_first c [] = ([], [])
split_first c (d ∷ s) = let (a, b) = split_first c s in if nat_eq d c then ([], s) else (d ∷ a, b)

split_first_lem : (c : ℕ) (a b : Text) → Without c a → split_first c (a ++ c ∷ b) ≡ (a, b)
split_first_lem c [] b h = ground arith
split_first_lem c (d ∷ a) b h = ground (arith, split_first_lem c a b)

abbrev has : ℕ → Text → Bool
has c [] = false
has c (d ∷ s) = if nat_eq d c then true else has c s

has-Without : (c : ℕ) (s : Text) → Without c s → has c s ≡ false
has-Without c [] h = refl
has-Without c (d ∷ s) h = ground (arith, has-Without c s)

has-middle : (c : ℕ) (a b : Text) → has c (a ++ c ∷ b) ≡ true
has-middle c [] b = ground arith
has-middle c (d ∷ a) b = ground (arith, has-middle c a b)

-- What stands before and behind the last `c`.
abbrev split_last : ℕ → Text → Text × Text
split_last c [] = ([], [])
split_last c (d ∷ s) = let (a, b) = split_last c s in if has c s then (d ∷ a, b) else ([], s)

split_last_lem : (c : ℕ) (a b : Text) → Without c b → split_last c (a ++ c ∷ b) ≡ (a, b)
split_last_lem c [] b h = rw (has-Without c b h)
split_last_lem c (d ∷ a) b h = rw (has-middle c a b) (ground (arith, split_last_lem c a b))

-- The resource with a key: three fields from the front, and the status from the back.
abbrev parse_key : Text → DriftedResource
parse_key s =
    let (v, s1) = split_first b'|' s in
    let (k, s2) = split_first b'|' s1 in
    let (n, s3) = split_first b'|' s2 in
    let (m, t) = split_last b'|' s3 in
    record { api_version = v; kind = k; name = m; namespace = n; status = t }

-- No separator in four of the fields, and no zero byte: the name may have a `|`, as the names of
-- RBAC objects may.
pub record IsClean (d : DriftedResource) : Type 0 where
  pub api_version : Without b'|' d.api_version
  pub kind : Without b'|' d.kind
  pub namespace : Without b'|' d.namespace
  pub status : Without b'|' d.status
  pub zero_free : Without 0 (drift_key d)

pub parse_key-drift_key : (d : DriftedResource) → IsClean d → parse_key (drift_key d) ≡ d
unfolding drift_key
parse_key-drift_key d h = rw (split_first_lem b'|' d.api_version _ h.api_version) (
    rw (split_first_lem b'|' d.kind _ h.kind) (
      rw (split_first_lem b'|' d.namespace _ h.namespace)
        (rw (split_last_lem b'|' d.name _ h.status) refl)))

split_first_inj :
    (c : ℕ) (a b s t : Text)
    → Without c a
    → Without c b
    → a ++ c ∷ s ≡ b ++ c ∷ t
    → (a ≡ b) × (s ≡ t)
split_first_inj c a b s t ha hb e =
    let both = ap (split_first c) e in
    let left = split_first_lem c a s ha in
    let right = split_first_lem c b t hb in (cc (left, right, both), cc (left, right, both))

hash_input_inj :
    (ks ls : List Text)
    → All (Without 0) ks
    → All (Without 0) ls
    → hash_input ks ≡ hash_input ls
    → ks ≡ ls
unfolding hash_input
hash_input_inj [] [] hk hl e = refl
hash_input_inj [] ([] ∷ ls) hk hl e = cc
hash_input_inj [] ((c ∷ l) ∷ ls) hk hl e = cc
hash_input_inj ([] ∷ ks) [] hk hl e = cc
hash_input_inj ((c ∷ k) ∷ ks) [] hk hl e = cc
hash_input_inj (k ∷ ks) (l ∷ ls) hk hl e =
    let (same, rest) = split_first_inj 0 k l (hash_input ks) (hash_input ls) hk.0 hl.0 e in
    cc (same, hash_input_inj ks ls hk.1 hl.1 rest)

drift_keys-zero_free :
    (ds : List DriftedResource) → All IsClean ds → All (Without 0) (drift_keys ds)
unfolding drift_keys
drift_keys-zero_free [] h = tt
drift_keys-zero_free (d ∷ ds) h = (h.0.zero_free, drift_keys-zero_free ds h.1)

parse_keys : (ds : List DriftedResource) → All IsClean ds → map parse_key (drift_keys ds) ≡ ds
unfolding drift_keys
parse_keys [] h = refl
parse_keys (d ∷ ds) h = cc (parse_key-drift_key d h.0, parse_keys ds h.1)

-- Two sets of resources whose sorted keys are hashed from one stream are the same, with as many
-- copies of each.
pub perm_of_hash_input :
    (ds es : List DriftedResource)
    → All IsClean ds
    → All IsClean es
    → hash_input (sort_strings (drift_keys ds)) ≡ hash_input (sort_strings (drift_keys es))
    → Perm ds es
perm_of_hash_input ds es hd he e =
    let zero_free_d = sort_strings-All (Without 0) (drift_keys ds) (drift_keys-zero_free ds hd) in
    let zero_free_e = sort_strings-All (Without 0) (drift_keys es) (drift_keys-zero_free es he) in
    let same = hash_input_inj _ _ zero_free_d zero_free_e e in
    let sorted : Perm (sort_strings (drift_keys ds)) (drift_keys es) =
      rw same (sort_strings-perm (drift_keys es)) in
    let keys =
      Perm.map parse_key (Perm.trans (Perm.symm (sort_strings-perm (drift_keys ds))) sorted) in
    rw (parse_keys ds hd) at (rw (parse_keys es he) at keys)
