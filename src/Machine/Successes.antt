-- ===== src/Machine/Successes.antt =====
-- What the runs of a function keep that return a value: the rules of Machine/Rules for those alone.
use kube_drift.Common.{◌≡◌, ◌∙◌, Bool, true, false, List, String, if◌then◌else◌, inl, inr}
use kube_drift.Errors.{ok, Result-cases}
use kube_drift.Errors.Format.{Arg}
use kube_drift.Machine.{Machine, Call, Exec, wrapped, ◌>>=◌}
use kube_drift.Machine.Rules.{Keeps}

pub record KeepsIfOk {S A V : Type 0} (view : List Call → V) (f : Exec S A) : Type 0 where
  pub at : (m : Machine S) (a : A) → (f m).0 ≡ ok a → view (f m).1.calls ≡ view m.calls

module _ {S A V : Type 0} {view : List Call → V} where
  pub KeepsIfOk-intro : (f : Exec S A) → Keeps view f → KeepsIfOk view f
  KeepsIfOk-intro f k = record { at = λ m a e. k.at m }

  pub KeepsIfOk-if :
      (b : Bool) (f g : Exec S A)
      → KeepsIfOk view f
      → KeepsIfOk view g
      → KeepsIfOk view (if b then f else g)
  KeepsIfOk-if true f g kf kg = kf
  KeepsIfOk-if false f g kf kg = kg

  pub KeepsIfOk-wrapped :
      (format : String) (args : List Arg) (f : Exec S A)
      → KeepsIfOk view f
      → KeepsIfOk view (wrapped format args f)
  unfolding wrapped
  KeepsIfOk-wrapped format args f k = record {
    at = λ m a e. elim (Result-cases (f m).0) [
      | inl (b, fine) ↦ k.at m b fine
      | inr (x, failed) ↦ cc (rw failed at e)
    ];
  }

module _ {S A B V : Type 0} {view : List Call → V} where
  pub KeepsIfOk-bind :
      (f : Exec S A) (k : A → Exec S B)
      → KeepsIfOk view f
      → ((a : A) → KeepsIfOk view (k a))
      → KeepsIfOk view (f >>= k)
  unfolding ◌>>=◌
  KeepsIfOk-bind f k kf kk = record {
    at = λ m b e. elim (Result-cases (f m).0) [
      | inl (a, fine) ↦ rw fine ((kk a).at (f m).1 b (rw fine at e) ∙ kf.at m a fine)
      | inr (x, failed) ↦ cc (rw failed at e)
    ];
  }
