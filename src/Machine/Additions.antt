-- ===== src/Machine/Additions.antt =====
-- Rules for what all the calls of a run meet, if those before it do.
use kube_drift.Common.{
  ◌≡◌, refl, Bool, true, false, Option, none, some, List, String, All, if◌then◌else◌,
}
use kube_drift.Errors.{Error, Result, ok, err}
use kube_drift.Errors.Format.{Arg}
use kube_drift.Machine.{
  Machine, Call, Exec, pure, fail, lift, ask, act, attempt, wrapped, effect, continue, ◌>>=◌,
}
use kube_drift.Machine.Rules.{Yields}

pub record Adds {S A : Type 0} (P : Call → Type 0) (f : Exec S A) : Type 0 where
  pub at : (m : Machine S) → All P m.calls → All P (f m).1.calls

module _ {S A : Type 0} {P : Call → Type 0} where
  pub Adds-pure : (a : A) → Adds P (pure {S = S} a)
  unfolding pure
  Adds-pure a = record { at = λ m h. h }

  pub Adds-fail : (e : Error) → Adds P (fail {S = S} {A = A} e)
  unfolding fail
  Adds-fail e = record { at = λ m h. h }

  pub Adds-lift : (r : Result A) → Adds P (lift {S = S} r)
  unfolding lift
  Adds-lift r = record { at = λ m h. h }

  pub Adds-ask : (f : S → Result A × S) → Adds P (ask f)
  unfolding ask
  Adds-ask f = record { at = λ m h. h }

  pub Adds-act :
      (note : Result A → Call) (f : S → Result A × S)
      → ((r : Result A) → P (note r))
      → Adds P (act note f)
  unfolding act
  Adds-act note f noted = record { at = λ m h. (noted _, h) }

  pub Adds-attempt : (f : Exec S A) → Adds P f → Adds P (attempt f)
  unfolding attempt
  Adds-attempt f k = record { at = k.at }

  pub Adds-wrapped :
      (format : String) (args : List Arg) (f : Exec S A) → Adds P f → Adds P (wrapped format args f)
  unfolding wrapped
  Adds-wrapped format args f k = record { at = k.at }

  pub Adds-if : (b : Bool) (f g : Exec S A) → Adds P f → Adds P g → Adds P (if b then f else g)
  Adds-if true f g kf kg = kf
  Adds-if false f g kf kg = kg

  pub Adds-option :
      {B : Type 0} (o : Option B) (f : B → Exec S A) (g : Exec S A)
      → ((b : B) → Adds P (f b))
      → Adds P g
      → Adds P (elim o [ none ↦ g | some b ↦ f b ])
  Adds-option none f g kf kg = kg
  Adds-option (some b) f g kf kg = kf b

pub Adds-effect :
    {S : Type 0} {P : Call → Type 0} (c : Call) (f : S → S) → P c → Adds P (effect c f)
unfolding effect
Adds-effect c f noted = record { at = λ m h. (noted, h) }

module _ {S A B : Type 0} {P : Call → Type 0} where
  Adds-continue :
      {Q : A → Type 0} (k : A → Exec S B)
      → ((a : A) → Q a → Adds P (k a))
      → (r : Result A) → ((a : A) → r ≡ ok a → Q a)
      → (m : Machine S) → All P m.calls
      → All P (continue r k m).1.calls
  Adds-continue k kk (ok a) q m h = (kk a (q a refl)).at m h
  Adds-continue k kk (err e) q m h = h

  -- The rest adds what it should for the values that the first part returns.
  pub Adds-bind_of :
      {Q : A → Type 0} (f : Exec S A) (k : A → Exec S B)
      → Adds P f
      → Yields Q f
      → ((a : A) → Q a → Adds P (k a))
      → Adds P (f >>= k)
  unfolding ◌>>=◌
  Adds-bind_of f k kf yf kk = record {
    at = λ m h. Adds-continue k kk (f m).0 (yf.at m) (f m).1 (kf.at m h);
  }

  pub Adds-bind :
      (f : Exec S A) (k : A → Exec S B) → Adds P f → ((a : A) → Adds P (k a)) → Adds P (f >>= k)
  Adds-bind f k kf kk =
      Adds-bind_of {Q = λ a. Unit} f k kf (record { at = λ m a e. tt }) (λ a _. kk a)

pub ruleset adds_rules = (
  Adds-pure, Adds-fail, Adds-lift, Adds-ask, Adds-act, Adds-attempt, Adds-wrapped, Adds-if,
  Adds-effect, Adds-bind,
)
