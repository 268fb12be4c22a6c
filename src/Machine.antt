-- ===== src/Machine.antt =====
-- What a run of the program acts on: the world outside it, of an unknown type `S`, and the calls by
-- which the run has acted on that world so far, the latest first. An `Exec` is a Go function that
-- may fail; what it did before it failed stays done.
pub mod Rules
pub mod Sameness
pub mod Successes
pub mod Additions
use kube_drift.Common.{ℕ, Bool, Option, none, some, List, [], ◌∷◌, String, Text, ◌≡◌, refl}
use kube_drift.Errors.{Error, Result, ok, err}
use kube_drift.Errors.Format.{Arg}
use kube_drift.Errors
use kube_drift.Api.{DriftCheck}
use kube_drift.Notify

pub record Request : Type 0 where
  pub method : Text
  pub url : Text
  pub content_type : Text
  pub body : Text

pub data Call : Type 0 where
  -- `r.Status().Update(ctx, dc)`, with its outcome
  updated_status : DriftCheck → Result DriftCheck → Call
  -- `WithLabelValues(name, namespace, status).Set(value)`
  set_gauge : Text → Text → Text → ℕ → Call
  -- `DeletePartialMatch` of a name and a namespace
  deleted_gauges : Text → Text → Call
  -- `notifier.Send`, with its outcome
  sent : Notify.Webhook → Notify.Event → Result (Unit {0}) → Call
  posted : Request → Call
  -- `r.Recorder.Event`: the type, the reason and the message
  emitted : Text → Text → Text → Call
  made_dir : Result Text → Call
  removed_dir : Text → Result (Unit {0}) → Call
  made_file : Result Text → Call
  -- `os.Remove`, with its outcome
  removed_file : Text → Result (Unit {0}) → Call
  -- `git.PlainCloneContext` into a directory from a URL, and whether it was anonymous
  cloned : Text → Text → Bool → Call
  -- `wt.Checkout` of a commit, with its outcome
  checked_out : Text → Result (Unit {0}) → Call

pub record Machine (S : Type 0) : Type 0 where
  pub world : S
  pub calls : List Call

abbrev pub Exec : Type 0 → Type 0 → Type 0
Exec S A = Machine S → Result A × Machine S

module _ {S A : Type 0} where
  unfoldable pub pure : A → Exec S A
  pure a m = (ok a, m)

  unfoldable pub fail : Error → Exec S A
  fail e m = (err e, m)

  unfoldable pub lift : Result A → Exec S A
  lift r m = (r, m)

  -- A library call that leaves no trace in `calls`.
  unfoldable pub ask : (S → Result A × S) → Exec S A
  ask f m = let (r, s) = f m.world in (r, record m { world = s })

  -- A library call, noted with its outcome.
  unfoldable pub act : (Result A → Call) → (S → Result A × S) → Exec S A
  act note f m = let (r, s) = f m.world in (r, record { world = s; calls = note r ∷ m.calls })

  -- `x, err := f()` where the code goes on to look at `err`.
  unfoldable pub attempt : Exec S A → Exec S (Result A)
  attempt f m = let (r, m') = f m in (ok r, m')

  -- `if err != nil { return fmt.Errorf(format, args..., err) }`
  unfoldable pub wrapped : String → List Arg → Exec S A → Exec S A
  wrapped format args f m = let (r, m') = f m in (Errors.wrapped format args r, m')

module _ {S A B : Type 0} where
  abbrev pub continue : Result A → (A → Exec S B) → Exec S B
  continue (ok a) f m = f a m
  continue (err e) f m = (err e, m)

  infixl 10 ◌>>=◌ ◌>>◌
  unfoldable pub ◌>>=◌ : Exec S A → (A → Exec S B) → Exec S B
  unfolding pure fail lift ask act attempt wrapped
  ◌>>=◌ f k m = let (r, m') = f m in continue r k m'

  abbrev pub ◌>>◌ : Exec S A → Exec S B → Exec S B
  f >> k = f >>= λ _. k

-- An effect that cannot fail.
unfoldable pub effect : {S : Type 0} → Call → (S → S) → Exec S (Unit {0})
effect c f m = (ok tt, record { world = f m.world; calls = c ∷ m.calls })
