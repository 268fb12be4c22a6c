-- ===== src/Controller/Reconcile.antt =====
-- `Reconcile`, `markNotReady` and `permanentFail` of
-- internal/controller/driftcheck_controller.go
pub mod Effects
pub mod Endings
pub mod Steps
pub mod Whole
pub mod Repeated
pub mod Isolation
pub mod Cleanup
pub mod Written
pub mod Lifecycle
use kube_drift.Common.{
  ℕ, zero, suc, Bool, true, false, Option, none, some, List, [], ◌∷◌, String, Text, text, ◌||◌,
  if◌then◌else◌,
}
use kube_drift.Errors.{Error, Result, ok, err, errorf, message}
use kube_drift.Errors.Format.{num, sprintf}
use kube_drift.Machine.{Exec, pure, fail, ask, attempt, ◌>>=◌, ◌>>◌}
use kube_drift.Libraries.{NamespacedName, DiffResult}
use kube_drift.Api.{DriftCheck, DriftCheckStatus, DriftSummary, Condition, ℤ, pos, negsuc}
use kube_drift.Metrics.{record_drift, delete}
use kube_drift.Source.{Source}
use kube_drift.Source.Load.{load}
use kube_drift.Controller.{World, Reconciler}
use kube_drift.Controller.Notifying.{notify, update_status}
use kube_drift.Controller.Sources.{build_source, apply_target}
use kube_drift.Controller.Summary.{summarize}

-- ctrl.Result: zero for no requeue.
pub record Requeue : Type 0 where
  pub requeue_after : ℤ

abbrev pub no_requeue : Requeue
no_requeue = record { requeue_after = pos 0 }

-- Five minutes, in nanoseconds.
abbrev pub default_interval : ℤ
default_interval = pos 300_000_000_000

unfoldable pub interval_or_default : ℤ → ℤ
interval_or_default (pos zero) = default_interval
interval_or_default (pos (suc n)) = pos (suc n)
interval_or_default (negsuc n) = default_interval

-- The condition of a check that failed.
unfoldable pub not_ready : DriftCheck → Text → Error → Condition
not_ready dc reason cause = record {
  type = text "Ready";
  status = text "False";
  reason = reason;
  message = message cause;
  observed_generation = dc.generation;
}

unfoldable pub ready_message : DriftSummary → Text
ready_message s =
    sprintf (text "%d changed, %d new, %d deleted") (num s.changed ∷ num s.new ∷ num s.deleted ∷ [])

-- The condition of a check that went through.
unfoldable pub evaluated : DriftCheck → DriftSummary → Condition
unfolding ready_message
evaluated dc summary = record {
  type = text "Ready";
  status = text "True";
  reason = text "DriftEvaluated";
  message = ready_message summary;
  observed_generation = dc.generation;
}

module _ {S : Type 0} (r : Reconciler S) (w : World S) where
  unfoldable pub with_condition : DriftCheck → Condition → DriftCheckStatus
  with_condition dc c = record dc.status {
    conditions = w.kube.set_status_condition dc.status.conditions c;
  }

  unfoldable pub mark_not_ready : DriftCheck → Text → Error → Exec S (Unit {0})
  unfolding with_condition not_ready
  mark_not_ready dc reason cause = do
    update_status r w (record dc { status = with_condition dc (not_ready dc reason cause) })
    pure tt

  unfoldable pub permanent_fail : DriftCheck → ℤ → Text → Error → Exec S Requeue
  unfolding mark_not_ready
  permanent_fail dc interval reason cause = do
    delete w.gauges r.has_metrics dc.name dc.namespace
    mark_not_ready dc reason cause
    pure (record { requeue_after = interval })

  -- The status that a comparison at a time leaves.
  unfoldable pub evaluated_status : DriftCheck → List DiffResult → ℕ → DriftCheckStatus
  unfolding evaluated
  evaluated_status dc results now =
      let (drifted, summary) = summarize results in
      record {
        last_checked_at = some now;
        drifted_resources = drifted;
        summary = summary;
        observed_generation = dc.generation;
        last_notified_hash = dc.status.last_notified_hash;
        conditions = w.kube.set_status_condition dc.status.conditions (evaluated dc summary);
      }

  -- From the results on. The object that the update answers with is what is read afterwards.
  unfoldable pub record_results : DriftCheck → ℤ → List DiffResult → Exec S Requeue
  unfolding evaluated_status
  record_results dc interval results = do
    now ← ask (λ s. let (t, s') = w.kube.now s in (ok t, s'))
    dc' ← update_status r w (record dc { status = evaluated_status dc results now })
    let s = dc'.status.summary
    record_drift w.gauges r.has_metrics dc'.name dc'.namespace s.changed s.new s.deleted s.unchanged
    notify r w dc'
    pure (record { requeue_after = interval })

  -- A failed `engine.Run`.
  unfoldable pub compare_failed : DriftCheck → ℤ → Error → Exec S Requeue
  unfolding permanent_fail
  compare_failed dc interval e =
      if w.kube.is_forbidden e || w.kube.is_unauthorized e
      then permanent_fail dc interval (text "FetchError") e
      else do attempt (mark_not_ready dc (text "CompareError") e); fail e

  unfoldable pub compare_source : DriftCheck → ℤ → Source S → Exec S Requeue
  unfolding compare_failed record_results
  compare_source dc interval src = do
    results ← attempt (w.backends.diff.engine_run (load w.backends src))
    elim results [ err e ↦ compare_failed dc interval e | ok rs ↦ record_results dc interval rs ]

  unfoldable pub evaluate : DriftCheck → ℤ → Exec S Requeue
  unfolding compare_source
  evaluate dc interval = do
    built ← attempt (build_source w.kube r.git_cloner dc)
    elim built [
      | err e ↦ permanent_fail dc interval (text "SourceError") e
      | ok src ↦ elim (apply_target w.kube src dc.spec.target) [
        | err e ↦ permanent_fail dc interval (text "InvalidTarget") e
        | ok filtered ↦ compare_source dc interval filtered
      ]
    ]

  -- From the interval on.
  unfoldable pub reconcile_found : DriftCheck → Exec S Requeue
  unfolding evaluate interval_or_default
  reconcile_found dc =
      let interval = interval_or_default dc.spec.interval in
      if r.has_fetcher
      then evaluate dc interval
      else permanent_fail dc interval (text "NoFetcher")
          (errorf "cluster fetcher is not configured" [])

  unfoldable pub reconcile : NamespacedName → Exec S Requeue
  unfolding reconcile_found
  reconcile req = do
    got ← attempt (ask (w.kube.get_drift_check req))
    elim got [
      | ok dc ↦ reconcile_found dc
      | err e ↦
          if w.kube.is_not_found e
          then (do delete w.gauges r.has_metrics req.name req.namespace; pure no_requeue)
          else fail e
    ]
