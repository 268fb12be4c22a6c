-- ===== src/Tests/Controlling.antt =====
-- Examples of the theorems on the controller.
use mathlib.Core.List.Perm
use kube_drift.Common.{
  ◌≡◌, refl, ◌⊎◌, Bool, true, false, some, List, [], ◌∷◌, text, Perm, All, map, length, ◌==◌,
  if◌then◌else◌, arith,
}
use kube_drift.Errors.{ok}
use kube_drift.Machine.{◌>>=◌, effect}
use kube_drift.Machine.Rules.{Keeps-bind, Keeps-pure}
use kube_drift.Libraries.{NamespacedName}
use kube_drift.Api.{DriftCheck, DriftedResource, pos}
use kube_drift.Metrics.{delete}
use kube_drift.Controller.{Reconciler}
use kube_drift.Controller.Summary.{summarize, drift_count, build_event, no_drift}
use kube_drift.Controller.Summary.Counts.{summarize_lem, drifted_of, Counts}
use kube_drift.Controller.Fingerprint.{drift_hash, drift_key}
use kube_drift.Controller.Fingerprint.Keys.{IsClean}
use kube_drift.Controller.Fingerprint.Dedup.{
  IsDigest, Collision, drift_hash-perm, perm_of_drift_hash,
}
use kube_drift.Controller.Notifying.{
  update_status, notify, is_silent, hash_of, is_resolved, webhooks_of,
}
use kube_drift.Controller.Notifying.Silence.{NothingNew, silent_reason}
use kube_drift.Controller.Notifying.Calls.{writes, attempts}
use kube_drift.Controller.Notifying.Delivery.{Attempt, Reached}
use kube_drift.Controller.Notifying.Told.{told, notify-Reached}
use kube_drift.Controller.Reconcile.{Requeue, reconcile, reconcile_found, interval_or_default}
use kube_drift.Controller.Reconcile.Effects.{effects, EngineKeeps}
use kube_drift.Controller.Reconcile.Endings.{Answers, Ending}
use kube_drift.Controller.Reconcile.Whole.{Requeues, reconcile_found-Ending, reconcile_requeue}
use kube_drift.Tests.Fixtures.{
  S, drifted, added, result, matching, check, kube, diff, crypto, world, reconciler, start,
}

pub engine-EngineKeeps : EngineKeeps effects diff
engine-EngineKeeps = λ load kept. Keeps-bind _ _ kept (λ rs. Keeps-pure _)

reconcile_found-Ending_example :
    Ending reconciler world check
      (interval_or_default check.spec.interval)
      (Answers reconciler world check start)
      []
      (reconcile_found reconciler world check start)
reconcile_found-Ending_example =
    reconcile_found-Ending reconciler world check tt engine-EngineKeeps start

abbrev request : NamespacedName
request = record { name = text "check"; namespace = text "a" }

abbrev minute : Requeue
minute = record { requeue_after = pos 60 }

abbrev unconfigured : Reconciler S
unconfigured = record reconciler { has_fetcher = false }

reconcile-ok : (reconcile unconfigured world request start).0 ≡ ok minute
unfolding reconcile ◌>>=◌ effect delete update_status
reconcile-ok = refl

reconcile_requeue_example :
    Requeues world (kube.get_drift_check request tt).0 (reconcile reconciler world request start).0
reconcile_requeue_example = reconcile_requeue reconciler world request start tt engine-EngineKeeps

pub check-loud : is_silent reconciler world check ≡ false
unfolding is_silent drift_count hash_of drift_hash ◌==◌
check-loud = refl

notify-Reached_example :
    let m' = (notify reconciler world check start).1 in
    let ev = build_event check (is_resolved reconciler world check) in
    (ts : List Attempt) × (all : Bool) × Reached reconciler world check.namespace ev
      (webhooks_of reconciler world check)
      ts
      all
    × (attempts m'.calls ≡ map (λ t. (t.0, ev, t.1)) ts)
    × (writes m'.calls ≡ (if all then told reconciler world check ∷ [] else []))
notify-Reached_example = notify-Reached reconciler world check start tt tt check-loud

-- The check, told of its two resources in the other order.
abbrev both : List DriftedResource
both = drifted ∷ added ∷ []

abbrev notified : DriftCheck
notified = record check {
  status = record check.status {
    drifted_resources = added ∷ drifted ∷ [];
    last_notified_hash = drift_hash crypto both;
  };
}

both-perm : Perm both (added ∷ drifted ∷ [])
both-perm = Perm.swap added drifted []

pub crypto-IsDigest : IsDigest crypto
crypto-IsDigest = record { bytes = λ t. (ground arith, tt); nonempty = λ t e. cc }

pub drifted-IsClean : IsClean drifted
unfolding drift_key
drifted-IsClean = record {
  api_version = ground arith;
  kind = ground arith;
  namespace = ground arith;
  status = ground arith;
  zero_free = ground arith;
}

added-IsClean : IsClean added
unfolding drift_key
added-IsClean = record {
  api_version = ground arith;
  kind = ground arith;
  namespace = ground arith;
  status = ground arith;
  zero_free = ground arith;
}

both-IsClean : All IsClean both
both-IsClean = (drifted-IsClean, (added-IsClean, tt))

notified-IsClean : All IsClean notified.status.drifted_resources
notified-IsClean = (added-IsClean, (drifted-IsClean, tt))

notified-silent : is_silent reconciler world notified ≡ true
unfolding is_silent drift_count hash_of drift_hash ◌==◌
notified-silent = refl

silent_reason_example :
    (webhooks_of reconciler world notified ≡ []) ⊎ NothingNew reconciler world notified (some both)
silent_reason_example =
    silent_reason reconciler world notified (some both) (refl, both-IsClean) crypto-IsDigest
      notified-IsClean notified-silent

drift_hash-perm_example : drift_hash crypto both ≡ drift_hash crypto (added ∷ drifted ∷ [])
drift_hash-perm_example = drift_hash-perm crypto both (added ∷ drifted ∷ []) both-perm

perm_of_drift_hash_example : Perm both (added ∷ drifted ∷ []) ⊎ Collision crypto
perm_of_drift_hash_example =
    perm_of_drift_hash crypto both (added ∷ drifted ∷ []) crypto-IsDigest both-IsClean
      notified-IsClean drift_hash-perm_example

summarize_lem_example :
    ((summarize (result ∷ matching ∷ [])).0 ≡ drifted_of (result ∷ matching ∷ []))
    × Counts no_drift (result ∷ matching ∷ []) (summarize (result ∷ matching ∷ [])).1
    × (drift_count (summarize (result ∷ matching ∷ [])).1
        ≡ length (summarize (result ∷ matching ∷ [])).0)
summarize_lem_example = summarize_lem (result ∷ matching ∷ [])
