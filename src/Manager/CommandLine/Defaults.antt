-- ===== src/Manager/CommandLine/Defaults.antt =====
-- The flags that the arguments do not spell.
use kube_drift.Common.{
  ◌≡◌, refl, ap, ◌≢◌, inl, inr, Bool, true, false, Option, none, some, List, [], ◌∷◌, Text, text,
  All, ◌||◌, ◌==◌, eq_of_==, Bool-cases, if◌then◌else◌,
}
use kube_drift.Errors.{Result-cases}
use kube_drift.Manager.CommandLine.{
  Flags, default_flags, Foreign, Own, metrics_bind_address, health_probe_bind_address, leader_elect,
  metrics_secure, http2, flag_name, Named, own, foreign, undefined, flag_named, is_boolean,
  parsed_bool, with_bool, set_own, parsed, Token, plain, terminator, malformed, flag, token, Effect,
  goes_on, awaits, ends, assigned, assign, bare, apply_token, parse_from, parse_flags,
}

-- Two settings that agree in the field of a flag.
abbrev pub Agree : Own → Flags → Flags → Type 0
Agree metrics_bind_address f g = f.metrics_addr ≡ g.metrics_addr
Agree health_probe_bind_address f g = f.probe_addr ≡ g.probe_addr
Agree leader_elect f g = f.enable_leader_election ≡ g.enable_leader_election
Agree metrics_secure f g = f.secure_metrics ≡ g.secure_metrics
Agree http2 f g = f.enable_http2 ≡ g.enable_http2

-- An argument that spells a flag.
abbrev pub Spells : Own → Text → Type 0
Spells o arg = (value : Option Text) × (token arg ≡ flag (flag_name o) value)

own-if :
    (b : Bool) (name : Text) (x o : Own) (rest : Named)
    → (b ≡ true → name ≡ flag_name x)
    → (rest ≡ own o → name ≡ flag_name o)
    → (if b then own x else rest) ≡ own o
    → name ≡ flag_name o
own-if true name x o rest here there h = let same : x ≡ o = cc in cc (here refl, ap flag_name same)
own-if false name x o rest here there h = there h

foreign-not_own :
    (b : Option Bool) (o : Own)
    → (elim b as (λ _. Named) [ some b ↦ foreign b | none ↦ undefined ]) ≢ own o
foreign-not_own none o h = cc
foreign-not_own (some b) o h = cc

own-flag_named :
    (fs : Foreign) (name : Text) (o : Own) → flag_named fs name ≡ own o → name ≡ flag_name o
unfolding flag_named
own-flag_named fs name o = own-if _ name metrics_bind_address o _ (eq_of_== _ _) (
    own-if _ name health_probe_bind_address o _ (eq_of_== _ _) (
      own-if _ name leader_elect o _ (eq_of_== _ _) (
        own-if _ name metrics_secure o _ (eq_of_== _ _) (
          own-if _ name http2 o _ (eq_of_== _ _)
            (λ h. absurd (foreign-not_own (fs.is_boolean name) o h))))))

-- What an effect leaves of the field of a flag.
abbrev Leaves : Own → Effect → Type 0
Leaves o (goes_on f) = Agree o f default_flags
Leaves o (awaits f n name) = Agree o f default_flags × (n ≢ own o)
Leaves o (ends p) = (f : Flags) → p ≡ parsed f → Agree o f default_flags

Leaves-with_bool :
    (o : Own) (put : Flags → Bool → Flags) (f : Flags) (name value : Text)
    → ((b : Bool) → Agree o (put f b) default_flags)
    → Leaves o (assigned (with_bool put f name value))
unfolding with_bool assigned
Leaves-with_bool o put f name value h = elim (Result-cases (parsed_bool name value)) [
  | inl (b, e) ↦ rw (Leaves, e) (h b)
  | inr (x, e) ↦ rw (Leaves, e) (λ g p. cc)
]

abbrev set_election : Flags → Bool → Flags
set_election f b = record f { enable_leader_election = b }

set_election-Agree :
    (o : Own) (f : Flags) (b : Bool)
    → own leader_elect ≢ own o
    → Agree o f default_flags
    → Agree o (set_election f b) default_flags
set_election-Agree leader_elect f b other h = absurd (other refl)
set_election-Agree _ f b other h = h

abbrev set_secure : Flags → Bool → Flags
set_secure f b = record f { secure_metrics = b }

set_secure-Agree :
    (o : Own) (f : Flags) (b : Bool)
    → own metrics_secure ≢ own o
    → Agree o f default_flags
    → Agree o (set_secure f b) default_flags
set_secure-Agree metrics_secure f b other h = absurd (other refl)
set_secure-Agree _ f b other h = h

abbrev set_http2 : Flags → Bool → Flags
set_http2 f b = record f { enable_http2 = b }

set_http2-Agree :
    (o : Own) (f : Flags) (b : Bool)
    → own http2 ≢ own o
    → Agree o f default_flags
    → Agree o (set_http2 f b) default_flags
set_http2-Agree http2 f b other h = absurd (other refl)
set_http2-Agree _ f b other h = h

-- Setting one flag leaves the field of another.
Leaves-set_own :
    (x o : Own) (f : Flags) (name value : Text)
    → own x ≢ own o
    → Agree o f default_flags
    → Leaves o (assigned (set_own x f name value))
unfolding set_own assigned
Leaves-set_own metrics_bind_address metrics_bind_address f name value other h = absurd (other refl)
Leaves-set_own metrics_bind_address _ f name value other h = h
Leaves-set_own health_probe_bind_address health_probe_bind_address f name value other h =
    absurd (other refl)
Leaves-set_own health_probe_bind_address _ f name value other h = h
Leaves-set_own leader_elect o f name value other h =
    Leaves-with_bool o set_election f name value (λ b. set_election-Agree o f b other h)
Leaves-set_own metrics_secure o f name value other h =
    Leaves-with_bool o set_secure f name value (λ b. set_secure-Agree o f b other h)
Leaves-set_own http2 o f name value other h =
    Leaves-with_bool o set_http2 f name value (λ b. set_http2-Agree o f b other h)

Agree-refl : (o : Own) (f : Flags) → Agree o f f
Agree-refl metrics_bind_address f = refl
Agree-refl _ f = refl

Agree-parsed :
    (o : Own) (g f : Flags)
    → parsed g ≡ parsed f
    → Agree o g default_flags
    → Agree o f default_flags
Agree-parsed o g f e h = let same : g ≡ f = cc in rw same at h

module _ (o : Own) (fs : Foreign) where
  Leaves-assign :
      (f : Flags) (n : Named) (name value : Text)
      → n ≢ own o
      → Agree o f default_flags
      → Leaves o (assign fs f n name value)
  unfolding assign
  Leaves-assign f (own x) name value other h = Leaves-set_own x o f name value other h
  Leaves-assign f (foreign b) name value other h = elim (Result-cases (fs.set name value)) [
    | inl (t, e) ↦ rw (Leaves, e) h
    | inr (x, e) ↦ rw (Leaves, e) (λ g p. cc)
  ]
  Leaves-assign f undefined name value other h =
      elim (Bool-cases (name == text "help" || name == text "h")) [
        | inl e ↦ rw (Leaves, e) (λ g p. cc)
        | inr e ↦ rw (Leaves, e) (λ g p. cc)
      ]

  Leaves-bare :
      (f : Flags) (n : Named) (name : Text)
      → n ≢ own o
      → Agree o f default_flags
      → Leaves o (bare fs f n name)
  unfolding bare
  Leaves-bare f undefined name other h = Leaves-assign f undefined name [] other h
  Leaves-bare f (foreign true) name other h =
      Leaves-assign f (foreign true) name (text "true") other h
  Leaves-bare f (foreign false) name other h = (h, other)
  Leaves-bare f (own x) name other h = elim (Bool-cases (is_boolean (own x))) [
    | inl e ↦ rw (Leaves, e) (Leaves-assign f (own x) name (text "true") other h)
    | inr e ↦ rw (Leaves, e) (h, other)
  ]

  Leaves-apply_token :
      (f : Flags) (arg : Text) (t : Token)
      → ((value : Option Text) → t ≢ flag (flag_name o) value)
      → Agree o f default_flags
      → Leaves o (apply_token fs f arg t)
  unfolding apply_token
  Leaves-apply_token f arg plain other h = λ g p. Agree-parsed o f g p h
  Leaves-apply_token f arg terminator other h = λ g p. Agree-parsed o f g p h
  Leaves-apply_token f arg malformed other h = λ g p. cc
  Leaves-apply_token f arg (flag name none) other h =
      Leaves-bare f _ name (λ e. other none (rw (own-flag_named fs name o e) refl)) h
  Leaves-apply_token f arg (flag name (some v)) other h =
      Leaves-assign f _ name v (λ e. other (some v) (rw (own-flag_named fs name o e) refl)) h

  Leaves-parse_from :
      (args : List Text) (before : Effect) (f : Flags)
      → All (λ arg. ¬ Spells o arg) args
      → Leaves o before
      → parse_from fs before args ≡ parsed f
      → Agree o f default_flags
  unfolding parse_from
  Leaves-parse_from args (ends p) f silent h e = h f e
  Leaves-parse_from [] (goes_on g) f silent h e = Agree-parsed o g f e h
  Leaves-parse_from [] (awaits g n name) f silent h e = cc
  Leaves-parse_from (arg ∷ args) (goes_on g) f silent h e =
      let unspelled : (v : Option Text) → token arg ≢ flag (flag_name o) v =
        λ v t. silent.0 (v, t) in
      Leaves-parse_from args _ f silent.1 (Leaves-apply_token g arg (token arg) unspelled h) e
  Leaves-parse_from (value ∷ args) (awaits g n name) f silent h e =
      Leaves-parse_from args _ f silent.1 (Leaves-assign g n name value h.1 h.0) e

-- A flag that no argument spells has its default.
pub parse_flags-Agree :
    (o : Own) (fs : Foreign) (args : List Text) (f : Flags)
    → All (λ arg. ¬ Spells o arg) args
    → parse_flags fs args ≡ parsed f
    → Agree o f default_flags
unfolding parse_flags
parse_flags-Agree o fs args f silent e =
    Leaves-parse_from o fs args (goes_on default_flags) f silent (Agree-refl o default_flags) e
