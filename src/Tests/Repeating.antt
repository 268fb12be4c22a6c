-- ===== src/Tests/Repeating.antt =====
-- An example of a reconcile that finds what was told before.
use mathlib.Core.List.Perm
use kube_drift.Common.{◌≡◌, refl, List, [], ◌∷◌, Perm, ◌==◌}
use kube_drift.Errors.{Result, ok, err}
use kube_drift.Machine.{Machine, pure, continue, ◌>>=◌}
use kube_drift.Machine.Rules.{Keeps-bind, Keeps-pure}
use kube_drift.Libraries.{DiffResult, Resource}
use kube_drift.Api.{DriftCheck, DriftedResource}
use kube_drift.Controller.Summary.{summarize}
use kube_drift.Controller.Fingerprint.{drift_hash}
use kube_drift.Controller.Notifying.Calls.{deliveries}
use kube_drift.Controller.Reconcile.{reconcile_found}
use kube_drift.Controller.Reconcile.Effects.{effects, EngineKeeps}
use kube_drift.Controller.Reconcile.Repeated.{Stores, Repeats, deliveries-reconcile_found}
use kube_drift.Tests.Fixtures.{
  S, drifted, result, matching, check, diff, crypto, world, reconciler, start,
}

abbrev told_before : List DriftedResource
told_before = drifted ∷ []

abbrev told_check : DriftCheck
told_check = record check {
  status = record check.status { last_notified_hash = drift_hash crypto told_before };
}

abbrev compared_again : List DiffResult
compared_again = result ∷ matching ∷ []

answered :
    (loaded : Result (List Resource)) (m : Machine S) (results : List DiffResult)
    → (continue loaded (λ rs. pure compared_again) m).0 ≡ ok results
    → compared_again ≡ results
unfolding pure
answered (ok rs) m results e = cc
answered (err x) m results e = cc

lists_told : Perm told_before (summarize compared_again).0
unfolding summarize ◌==◌
lists_told = Perm.rfl

world-Repeats : Repeats reconciler world told_check told_before start
unfolding ◌>>=◌
world-Repeats = λ results ans.
    let (_, _, _, _, e) = ans in
    let same : compared_again ≡ results = answered _ _ results e in rw same at lists_told

pub world-Stores : Stores world
world-Stores = λ d d' saved. let same : d ≡ d' = cc (saved.1) in rw same refl

keeps_effects : EngineKeeps effects diff
keeps_effects = λ load kept. Keeps-bind _ _ kept (λ rs. Keeps-pure _)

deliveries-reconcile_found_example :
    deliveries (reconcile_found reconciler world told_check start).1.calls ≡ []
deliveries-reconcile_found_example =
    deliveries-reconcile_found reconciler world told_check told_before tt keeps_effects refl
      world-Stores start world-Repeats
