-- ===== src/Machine/Rules.antt =====
-- Rules for what every run of a function keeps, and for what it returns: one for each way to build a
-- function.
use kube_drift.Common.{
  ◌≡◌, refl, ◌∙◌, Bool, true, false, Option, none, some, List, ◌∷◌, String, if◌then◌else◌,
}
use kube_drift.Errors
use kube_drift.Errors.{Error, Result, ok, err}
use kube_drift.Errors.Format.{Arg}
use kube_drift.Machine.{
  Machine, Call, Exec, pure, fail, lift, ask, act, attempt, wrapped, effect, continue, ◌>>=◌,
}

-- What `view` sees of the calls is the same after a run as before it, also after a failure.
pub record Keeps {S A V : Type 0} (view : List Call → V) (f : Exec S A) : Type 0 where
  pub at : (m : Machine S) → view (f m).1.calls ≡ view m.calls

module _ {S A V : Type 0} {view : List Call → V} where
  pub Keeps-pure : (a : A) → Keeps view (pure {S = S} a)
  unfolding pure
  Keeps-pure a = record { at = λ m. refl }

  pub Keeps-fail : (e : Error) → Keeps view (fail {S = S} {A = A} e)
  unfolding fail
  Keeps-fail e = record { at = λ m. refl }

  pub Keeps-lift : (r : Result A) → Keeps view (lift {S = S} r)
  unfolding lift
  Keeps-lift r = record { at = λ m. refl }

  pub Keeps-ask : (f : S → Result A × S) → Keeps view (ask f)
  unfolding ask
  Keeps-ask f = record { at = λ m. refl }

  pub Keeps-attempt : (f : Exec S A) → Keeps view f → Keeps view (attempt f)
  unfolding attempt
  Keeps-attempt f k = record { at = k.at }

  pub Keeps-wrapped :
      (format : String) (args : List Arg) (f : Exec S A)
      → Keeps view f
      → Keeps view (wrapped format args f)
  unfolding wrapped
  Keeps-wrapped format args f k = record { at = k.at }

  -- An act or an effect that the view does not see.
  pub Keeps-act :
      (note : Result A → Call) (f : S → Result A × S)
      → ((r : Result A) (cs : List Call) → view (note r ∷ cs) ≡ view cs)
      → Keeps view (act note f)
  unfolding act
  Keeps-act note f unseen = record { at = λ m. unseen _ m.calls }

  pub Keeps-if :
      (b : Bool) (f g : Exec S A) → Keeps view f → Keeps view g → Keeps view (if b then f else g)
  Keeps-if true f g kf kg = kf
  Keeps-if false f g kf kg = kg

-- A choice by an option or by a result.
module _ {S A B V : Type 0} {view : List Call → V} where
  pub Keeps-option :
      (o : Option B) (f : B → Exec S A) (g : Exec S A)
      → ((b : B) → Keeps view (f b))
      → Keeps view g
      → Keeps view (elim o [ none ↦ g | some b ↦ f b ])
  Keeps-option none f g kf kg = kg
  Keeps-option (some b) f g kf kg = kf b

  pub Keeps-result :
      (r : Result B) (f : B → Exec S A) (g : Error → Exec S A)
      → ((b : B) → Keeps view (f b))
      → ((e : Error) → Keeps view (g e))
      → Keeps view (elim r [ ok b ↦ f b | err e ↦ g e ])
  Keeps-result (ok b) f g kf kg = kf b
  Keeps-result (err e) f g kf kg = kg e

pub Keeps-effect :
    {S V : Type 0} {view : List Call → V} (c : Call) (f : S → S)
    → ((cs : List Call) → view (c ∷ cs) ≡ view cs)
    → Keeps view (effect c f)
unfolding effect
Keeps-effect c f unseen = record { at = λ m. unseen m.calls }

module _ {S A B V : Type 0} {view : List Call → V} where
  Keeps-continue :
      (k : A → Exec S B)
      → ((a : A) → Keeps view (k a))
      → (r : Result A) (m : Machine S) → view (continue r k m).1.calls ≡ view m.calls
  Keeps-continue k kk (ok a) m = (kk a).at m
  Keeps-continue k kk (err e) m = refl

  pub Keeps-bind :
      (f : Exec S A) (k : A → Exec S B)
      → Keeps view f
      → ((a : A) → Keeps view (k a))
      → Keeps view (f >>= k)
  unfolding ◌>>=◌
  Keeps-bind f k kf kk = record { at = λ m. Keeps-continue k kk (f m).0 (f m).1 ∙ kf.at m }

pub ruleset keeps_rules = (
  Keeps-pure, Keeps-fail, Keeps-lift, Keeps-ask, Keeps-attempt, Keeps-wrapped, Keeps-act,
  Keeps-effect, Keeps-if, Keeps-bind,
)

-- A value that a run returns meets `P`.
pub record Yields {S A : Type 0} (P : A → Type 0) (f : Exec S A) : Type 0 where
  pub at : (m : Machine S) (a : A) → (f m).0 ≡ ok a → P a

module _ {S A : Type 0} {P : A → Type 0} where
  pub Yields-pure : (a : A) → P a → Yields P (pure {S = S} a)
  unfolding pure
  Yields-pure a h = record { at = λ m b e. let same : b ≡ a = cc in rw same h }

  pub Yields-fail : (e : Error) → Yields P (fail {S = S} e)
  unfolding fail
  Yields-fail e = record { at = λ m b h. cc }

  pub Yields-lift : (r : Result A) → ((a : A) → r ≡ ok a → P a) → Yields P (lift {S = S} r)
  unfolding lift
  Yields-lift r h = record { at = λ m b e. h b e }

  pub Yields-any : (f : Exec S A) → ((a : A) → P a) → Yields P f
  Yields-any f h = record { at = λ m b e. h b }

  pub Yields-if :
      (b : Bool) (f g : Exec S A)
      → (b ≡ true → Yields P f)
      → (b ≡ false → Yields P g)
      → Yields P (if b then f else g)
  Yields-if true f g yf yg = yf refl
  Yields-if false f g yf yg = yg refl

  pub Yields-option :
      {B : Type 0} (o : Option B) (f : B → Exec S A) (g : Exec S A)
      → ((b : B) → Yields P (f b))
      → Yields P g
      → Yields P (elim o [ none ↦ g | some b ↦ f b ])
  Yields-option none f g yf yg = yg
  Yields-option (some b) f g yf yg = yf b

module _ {S A B : Type 0} {P : B → Type 0} where
  Yields-continue :
      (k : A → Exec S B) (r : Result A) (m : Machine S) (b : B)
      → ((a : A) → r ≡ ok a → Yields P (k a))
      → (continue r k m).0 ≡ ok b
      → P b
  Yields-continue k (ok a) m b yk e = (yk a refl).at m b e
  Yields-continue k (err x) m b yk e = cc

  pub Yields-bind :
      {Q : A → Type 0} (f : Exec S A) (k : A → Exec S B)
      → Yields Q f
      → ((a : A) → Q a → Yields P (k a))
      → Yields P (f >>= k)
  unfolding ◌>>=◌
  Yields-bind f k yf yk = record {
    at = λ m b e. Yields-continue k (f m).0 (f m).1 b (λ a r. yk a (yf.at m a r)) e;
  }

  -- Where nothing is needed of the value of the first part.
  pub Yields-then :
      (f : Exec S A) (k : A → Exec S B) → ((a : A) → Yields P (k a)) → Yields P (f >>= k)
  Yields-then f k yk = Yields-bind {Q = λ a. Unit} f k (record { at = λ m a e. tt }) (λ a _. yk a)

-- Where the rest keeps the view only for the values that the first part returns.
module _ {S A B V : Type 0} {view : List Call → V} where
  Keeps-continue_of :
      {Q : A → Type 0} (k : A → Exec S B)
      → ((a : A) → Q a → Keeps view (k a))
      → (r : Result A) → ((a : A) → r ≡ ok a → Q a)
      → (m : Machine S) → view (continue r k m).1.calls ≡ view m.calls
  Keeps-continue_of k kk (ok a) q m = (kk a (q a refl)).at m
  Keeps-continue_of k kk (err e) q m = refl

  pub Keeps-bind_of :
      {Q : A → Type 0} (f : Exec S A) (k : A → Exec S B)
      → Keeps view f
      → Yields Q f
      → ((a : A) → Q a → Keeps view (k a))
      → Keeps view (f >>= k)
  unfolding ◌>>=◌
  Keeps-bind_of f k kf yf kk = record {
    at = λ m. Keeps-continue_of k kk (f m).0 (yf.at m) (f m).1 ∙ kf.at m;
  }

pub Yields-wrapped :
    {S A : Type 0} {P : A → Type 0} (format : String) (args : List Arg) (f : Exec S A)
    → Yields P f
    → Yields P (wrapped format args f)
unfolding wrapped
Yields-wrapped {A = A} format args f yf = record { at = λ m b e. yf.at m b (go (f m).0 b e) }
  where
    go : (r : Result A) (b : A) → Errors.wrapped format args r ≡ ok b → r ≡ ok b
    go (ok a) b e = e
    go (err x) b e = cc

pub Yields-attempt :
    {S A : Type 0} {P : A → Type 0} (f : Exec S A)
    → Yields P f
    → Yields (λ r. (a : A) → r ≡ ok a → P a) (attempt f)
unfolding attempt
Yields-attempt f yf = record { at = λ m r e a h. let same : (f m).0 ≡ ok a = cc in yf.at m a same }
