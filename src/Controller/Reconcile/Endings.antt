-- ===== src/Controller/Reconcile/Endings.antt =====
-- The ways in which the reconcile of a check that exists can end.
use kube_drift.Controller.Sources.{build_source, apply_target}
use kube_drift.Common.{ℕ, ◌≡◌, Bool, true, false, List, ◌∷◌, Text, text, ◌||◌}
use kube_drift.Errors.{Error, Result, ok, err}
use kube_drift.Machine.{Machine, Call, updated_status, set_gauge, deleted_gauges}
use kube_drift.Libraries.{DiffResult}
use kube_drift.Api.{DriftCheck, ℤ}
use kube_drift.Source.{Source}
use kube_drift.Source.Load.{load}
use kube_drift.Controller.{World, Reconciler}
use kube_drift.Controller.Notifying.{notify}
use kube_drift.Controller.Reconcile.Effects.{effects}
use kube_drift.Controller.Reconcile.{Requeue, not_ready, with_condition, evaluated_status}

-- The result that follows a status update.
abbrev pub after_write {ℓ} : {A : Type ℓ} → Result A → ℤ → Result Requeue
after_write (ok a) interval = ok (record { requeue_after = interval })
after_write (err e) interval = err e

-- The gauges' deletion, if there are metrics.
abbrev pub deletion : Bool → DriftCheck → List Call → List Call
deletion false dc cs = cs
deletion true dc cs = deleted_gauges dc.name dc.namespace ∷ cs

-- The four gauges of a check, if there are metrics.
abbrev pub recording : Bool → DriftCheck → List Call → List Call
recording false dc cs = cs
recording true dc cs =
    let s = dc.status.summary in
    set_gauge dc.name dc.namespace (text "unchanged") s.unchanged
    ∷ set_gauge dc.name dc.namespace (text "deleted") s.deleted
    ∷ set_gauge dc.name dc.namespace (text "new") s.new
    ∷ set_gauge dc.name dc.namespace (text "changed") s.changed
    ∷ cs

module _ {S : Type 0} (r : Reconciler S) (w : World S) (dc : DriftCheck) where
  -- The check as it is written when it is not ready.
  abbrev pub unready : Text → Error → DriftCheck
  unready reason e = record dc { status = with_condition r w dc (not_ready dc reason e) }

  -- The check as it is written after a comparison.
  abbrev pub compared : List DiffResult → ℕ → DriftCheck
  compared results now = record dc { status = evaluated_status r w dc results now }

-- A reconcile that starts with some machine comes to its comparison, which gives some answer: the
-- source is built from the check, its target is applied, and the engine runs with that source.
abbrev pub Answers :
    {S : Type 0}
    → Reconciler S
    → World S
    → DriftCheck
    → Machine S
    → Result (List DiffResult)
    → Type 0
Answers {S} r w dc m answer =
    let built = build_source w.kube r.git_cloner dc m in
    (src : Source S) × (filtered : Source S) × (built.0 ≡ ok src)
    × (apply_target w.kube src dc.spec.target ≡ ok filtered)
    × ((w.backends.diff.engine_run (load w.backends filtered) built.1).0 ≡ answer)

-- The server gives some answer to a status update.
abbrev pub Saves : {S : Type 0} → World S → DriftCheck → Result DriftCheck → Type 0
Saves {S} w dc answer = (s : S) × ((w.kube.update_status dc s).0 ≡ answer)

module _ {S : Type 0} (r : Reconciler S) (w : World S) (dc : DriftCheck) (interval : ℤ)
    (answers : Result (List DiffResult) → Type 0) where
  -- How a reconcile ends whose comparison gives one of some answers.
  pub data Ending (es : List Call) (out : Result Requeue × Machine S) : Type 0 where
    -- A permanent failure: the gauges go, the status says why, and the check is tried again after
    -- its interval.
    refused :
        (reason : Text) (e : Error) (answer : Result DriftCheck)
        → out.0 ≡ after_write answer interval
        → effects out.1.calls
          ≡ updated_status (unready r w dc reason e) answer ∷ deletion r.has_metrics dc es
        → Ending es out
    -- A transient failure: the gauges stay, the status says why, and the error comes back also if
    -- that update fails.
    unsettled :
        (e : Error) (answer : Result DriftCheck)
        → answers (err e)
        → (w.kube.is_forbidden e || w.kube.is_unauthorized e) ≡ false
        → out.0 ≡ err e
        → effects out.1.calls ≡ updated_status (unready r w dc (text "CompareError") e) answer ∷ es
        → Ending es out
    -- A comparison whose status could not be written: nothing is recorded or sent.
    unwritten :
        (results : List DiffResult) (now : ℕ) (e : Error)
        → answers (ok results)
        → out.0 ≡ err e
        → effects out.1.calls ≡ updated_status (compared r w dc results now) (err e) ∷ es
        → Ending es out
    -- A comparison that is written: then the gauges of the object that the server answered with are
    -- set, and `notify` runs on that object.
    recorded :
        (results : List DiffResult) (now : ℕ) (dc' : DriftCheck) (m : Machine S)
        → answers (ok results)
        → Saves w (compared r w dc results now) (ok dc')
        → effects m.calls
          ≡ recording r.has_metrics dc' (updated_status (compared r w dc results now) (ok dc') ∷ es)
        → out.0 ≡ after_write (notify r w dc' m).0 interval
        → effects out.1.calls ≡ effects (notify r w dc' m).1.calls
        → Ending es out
