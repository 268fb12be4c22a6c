-- ===== src/Controller/ConfigMaps/Held.antt =====
-- What a ConfigMap holds, by its entries.
use kube_drift.Common.{
  All, All-append, ◌⊎◌, ◌++◌, ◌==◌, eq_refl, eq_of_==, none, map, text, join, IsAscending,
  sort_strings-perm, sort_strings-IsAscending, sort_strings-All, ◌≡◌, refl, ap, ◌∙◌, ◌≢◌, some,
  List, [], ◌∷◌, Text, Perm, sort_strings, Bool-cases, Option-cases, inl, inr,
}
use kube_drift.Libraries.{ConfigMap}
use kube_drift.Controller.ConfigMaps.{entry, keys, content, contents, all_keys, joined_content}

-- The first value of a key in a map.
pub data Maps : List (Text × Text) → Text → Text → Type 0 where
  here : {k v : Text} {m : List (Text × Text)} → Maps ((k, v) ∷ m) k v
  there : {j w k v : Text} {m : List (Text × Text)} → j ≢ k → Maps m k v → Maps ((j, w) ∷ m) k v

abbrev pub Lacks : List (Text × Text) → Text → Type 0
Lacks m k = All (λ e. e.0 ≢ k) m

-- What a ConfigMap has under a key: in Data, or else in BinaryData.
abbrev pub HasEntry : ConfigMap → Text → Text → Type 0
HasEntry cm k v = Maps cm.texts k v ⊎ Lacks cm.texts k × Maps cm.binaries k v

-- The values of some keys, in order.
pub data Values (cm : ConfigMap) : List Text → List Text → Type 0 where
  no_keys : Values cm [] []
  next_key :
      {k v : Text} {ks vs : List Text}
      → HasEntry cm k v
      → Values cm ks vs
      → Values cm (k ∷ ks) (v ∷ vs)

-- Documents with a separator line between two.
pub data Documents : List Text → Text → Type 0 where
  no_document : Documents [] []
  last_document : {v : Text} → Documents (v ∷ []) v
  next_document :
      {v w t : Text} {vs : List Text}
      → Documents (w ∷ vs) t
      → Documents (v ∷ w ∷ vs) (v ++ text "\n---\n" ++ t)

abbrev pub names : List (Text × Text) → List Text
names m = map (λ e. e.0) m

-- What one key, or all of them by ascending key, hold.
abbrev pub Holds : ConfigMap → Text → Text → Type 0
Holds cm [] t =
    (ks vs : List Text) × Perm ks (names cm.texts ++ names cm.binaries)
    × IsAscending ks
    × Values cm ks vs
    × Documents vs t
Holds cm (c ∷ key) v = HasEntry cm (c ∷ key) v

entry-Maps : (k v : Text) (m : List (Text × Text)) → entry k m ≡ some v → Maps m k v
unfolding entry
entry-Maps k v [] h = cc
entry-Maps k v ((j, w) ∷ m) h = elim (Bool-cases (j == k)) [
  | inl same ↦
      let e : j ≡ k = eq_of_== j k same in
      let value : w ≡ v = cc (rw same at h) in rw (e, value) here
  | inr other ↦
      there (λ e. cc (other, eq_refl k, ap (λ i. i == k) e)) (entry-Maps k v m (rw other at h))
]

entry-Lacks : (k : Text) (m : List (Text × Text)) → entry k m ≡ none → Lacks m k
unfolding entry
entry-Lacks k [] h = tt
entry-Lacks k ((j, w) ∷ m) h = elim (Bool-cases (j == k)) [
  | inl same ↦ cc (rw same at h)
  | inr other ↦ (λ e. cc (other, eq_refl k, ap (λ i. i == k) e), entry-Lacks k m (rw other at h))
]

pub content-HasEntry : (cm : ConfigMap) (k v : Text) → content cm k ≡ some v → HasEntry cm k v
unfolding content
content-HasEntry cm k v h = elim (Option-cases (entry k cm.texts)) [
  | inl missing ↦
      inr (entry-Lacks k cm.texts missing, entry-Maps k v cm.binaries (rw (content, missing) at h))
  | inr (w, found) ↦
      let same : w ≡ v = cc (rw (content, found) at h) in
      inl (entry-Maps k v cm.texts (found ∙ ap some same))
]

abbrev Found : List (Text × Text) → Text → Type 0
Found m k = (v : Text) × (entry k m ≡ some v)

Found-below :
    (j w : Text) (m : List (Text × Text)) (ks : List Text)
    → All (Found m) ks
    → All (Found ((j, w) ∷ m)) ks
unfolding entry
Found-below j w m [] h = tt
Found-below j w m (k ∷ ks) ((v, found), more) = elim (Bool-cases (j == k)) [
  | inl same ↦ ((w, rw same refl), Found-below j w m ks more)
  | inr other ↦ ((v, rw other found), Found-below j w m ks more)
]

keys-Found : (m : List (Text × Text)) → All (Found m) (keys m)
unfolding keys entry
keys-Found [] = tt
keys-Found ((k, v) ∷ m) = ((v, rw (eq_refl k) refl), Found-below k v m (keys m) (keys-Found m))

keys-names : (m : List (Text × Text)) → keys m ≡ names m
unfolding keys
keys-names [] = refl
keys-names ((k, v) ∷ m) = ap (λ ks. k ∷ ks) (keys-names m)

abbrev Content : ConfigMap → Text → Type 0
Content cm k = (v : Text) × (content cm k ≡ some v)

texts-Content : (cm : ConfigMap) (ks : List Text) → All (Found cm.texts) ks → All (Content cm) ks
unfolding content
texts-Content cm [] h = tt
texts-Content cm (k ∷ ks) ((v, found), more) =
    ((v, rw (content, found) refl), texts-Content cm ks more)

binaries-Content :
    (cm : ConfigMap) (ks : List Text) → All (Found cm.binaries) ks → All (Content cm) ks
unfolding content
binaries-Content cm [] h = tt
binaries-Content cm (k ∷ ks) ((v, found), more) = elim (Option-cases (entry k cm.texts)) [
  | inl missing ↦ ((v, rw (content, missing) found), binaries-Content cm ks more)
  | inr (w, first) ↦ ((w, rw (content, first) refl), binaries-Content cm ks more)
]

all_keys-Content : (cm : ConfigMap) → All (Content cm) (all_keys cm)
all_keys-Content cm =
    All-append _ (keys cm.texts) (keys cm.binaries) (texts-Content cm _ (keys-Found cm.texts))
      (binaries-Content cm _ (keys-Found cm.binaries))

contents-Values :
    (cm : ConfigMap) (ks : List Text) → All (Content cm) ks → Values cm ks (contents cm ks)
unfolding contents
contents-Values cm [] h = no_keys
contents-Values cm (k ∷ ks) ((v, found), more) =
    rw (contents, found) (next_key (content-HasEntry cm k v found) (contents-Values cm ks more))

join-Documents : (vs : List Text) → Documents vs (join (text "\n---\n") vs)
unfolding join
join-Documents [] = no_document
join-Documents (v ∷ []) = last_document
join-Documents (v ∷ w ∷ vs) = next_document (join-Documents (w ∷ vs))

pub joined_content-Holds : (cm : ConfigMap) → Holds cm [] (joined_content cm)
unfolding joined_content
joined_content-Holds cm =
    let ks = sort_strings (all_keys cm) in
    let listed : Perm ks (names cm.texts ++ names cm.binaries) =
      rw (keys-names cm.texts, keys-names cm.binaries) at (sort_strings-perm (all_keys cm)) in
    (
      ks,
      contents cm ks,
      listed,
      sort_strings-IsAscending (all_keys cm),
      contents-Values cm ks (sort_strings-All _ (all_keys cm) (all_keys-Content cm)),
      join-Documents (contents cm ks),
    )
