-- ===== src/Controller/Reconcile/Effects.antt =====
-- What a reconcile calls besides loading: status updates, gauges, webhooks and events.
use kube_drift.Common.{refl, List, [], ◌∷◌}
use kube_drift.Machine.{
  Call, Exec, updated_status, set_gauge, deleted_gauges, sent, posted, emitted,
}
use kube_drift.Machine.Rules.{Keeps}
use kube_drift.Libraries.{KubeDiff, Resource}
use kube_drift.Source.Clone.Calls.{IgnoresGit}
use kube_drift.Source.Checkout.Cleanup.{KeepsBrackets, KeepsBrackets-intro}

-- The calls that are seen outside the reconciler's own files, the latest first.
abbrev pub effects : List Call → List Call
effects [] = []
effects (updated_status dc r ∷ cs) = updated_status dc r ∷ effects cs
effects (set_gauge n ns s v ∷ cs) = set_gauge n ns s v ∷ effects cs
effects (deleted_gauges n ns ∷ cs) = deleted_gauges n ns ∷ effects cs
effects (sent wh ev r ∷ cs) = sent wh ev r ∷ effects cs
effects (posted q ∷ cs) = posted q ∷ effects cs
effects (emitted t r e ∷ cs) = emitted t r e ∷ effects cs
effects (_ ∷ cs) = effects cs

pub effects-IgnoresGit : IgnoresGit effects
effects-IgnoresGit = record {
  files = record {
    of_made_file = λ r cs. refl;
    of_removed_file = λ f r cs. refl;
    of_checked_out = λ hash r cs. refl;
  };
  of_cloned = λ dir url anonymous cs. refl;
}

pub effects-KeepsBrackets : KeepsBrackets effects
effects-KeepsBrackets = KeepsBrackets-intro effects (λ r cs. refl) (λ d r cs. refl)

-- `engine.Run` calls nothing but the source's `Load` and reads of the cluster: what the load keeps,
-- the run keeps.
abbrev pub EngineKeeps : {S V : Type 0} → (List Call → V) → KubeDiff S → Type 0
EngineKeeps {S} view diff =
    (load : Exec S (List Resource)) → Keeps view load → Keeps view (diff.engine_run load)
