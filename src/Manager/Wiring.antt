-- ===== src/Manager/Wiring.antt =====
-- The reconcilers that a run of the process sets up, and what holds of their reconciles.
use kube_drift.Source.Load.Directories.{NeverCancels}
use kube_drift.Common.{List, [], ◌∷◌}
use kube_drift.Errors.{ok}
use kube_drift.Machine.{Machine}
use kube_drift.Machine.Rules.{Keeps}
use kube_drift.Libraries.{Http, NamespacedName}
use kube_drift.Api.{DriftCheck}
use kube_drift.Source.Checkout.Cleanup.{pending}
use kube_drift.Controller.{World, Reconciler}
use kube_drift.Controller.Reconcile.{reconcile, reconcile_found, interval_or_default}
use kube_drift.Controller.Reconcile.Effects.{effects, EngineKeeps}
use kube_drift.Controller.Reconcile.Endings.{Answers, Ending}
use kube_drift.Controller.Reconcile.Whole.{Requeues}
use kube_drift.Manager.{Runtime, Step, completed}

-- The reconcilers that were set up.
abbrev pub reconcilers : {S : Type 0} → List (Step S) → List (Reconciler S)
reconcilers [] = []
reconcilers (completed r (ok _) ∷ steps) = r ∷ reconcilers steps
reconcilers (_ ∷ steps) = reconcilers steps

module _ {S : Type 0} (rt : Runtime S) (http : Http S) where
  module _ (w : World S) (never : NeverCancels w.backends)
      (tidy : EngineKeeps pending w.backends.diff)
      (engine : EngineKeeps effects w.backends.diff) where
    -- A reconciler of which every reconcile tries to remove its directories, and runs again or ends
    -- as its check demands.
    abbrev pub Serves : Reconciler S → Type 0
    Serves r =
        ((req : NamespacedName) → Keeps pending (reconcile r w req))
        × ((dc : DriftCheck) (m : Machine S)
            → Ending r w dc (interval_or_default dc.spec.interval) (Answers r w dc m)
                (effects m.calls) (reconcile_found r w dc m))
        × ((req : NamespacedName) (m : Machine S)
            → Requeues w (w.kube.get_drift_check req m.world).0 (reconcile r w req m).0)
