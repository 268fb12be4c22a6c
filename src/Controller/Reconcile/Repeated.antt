-- ===== src/Controller/Reconcile/Repeated.antt =====
-- The reconcile of a check whose drift was told before.
use kube_drift.Common.{ℕ, ◌≡◌, refl, ap, sym, ◌∙◌, Bool, true, false, List, [], ◌∷◌, ◌++◌, Perm}
use kube_drift.Errors.{Result, ok, err}
use kube_drift.Machine.{
  Machine, Call, updated_status, set_gauge, deleted_gauges, sent, posted, emitted, made_dir,
  removed_dir, made_file, removed_file, cloned, checked_out,
}
use kube_drift.Libraries.{DiffResult}
use kube_drift.Api.{DriftCheck, DriftedResource, ℤ}
use kube_drift.Source.Checkout.Cleanup.{CloneKeeps}
use kube_drift.Controller.{World, Reconciler}
use kube_drift.Controller.Summary.{summarize}
use kube_drift.Controller.Fingerprint.{drift_hash}
use kube_drift.Controller.Notifying.{notify}
use kube_drift.Controller.Notifying.Silence.{notify_same_set}
use kube_drift.Controller.Notifying.Calls.{deliveries}
use kube_drift.Controller.Reconcile.{
  Requeue, reconcile_found, evaluated_status, interval_or_default,
}
use kube_drift.Controller.Reconcile.Effects.{effects, EngineKeeps}
use kube_drift.Controller.Reconcile.Endings.{
  Ending, refused, unsettled, unwritten, recorded, deletion, recording, compared, Answers, Saves,
}
use kube_drift.Controller.Reconcile.Whole.{reconcile_found-Ending}

deliveries-effects : (cs : List Call) → deliveries (effects cs) ≡ deliveries cs
deliveries-effects [] = refl
deliveries-effects (updated_status dc r ∷ cs) = deliveries-effects cs
deliveries-effects (set_gauge n ns s v ∷ cs) = deliveries-effects cs
deliveries-effects (deleted_gauges n ns ∷ cs) = deliveries-effects cs
deliveries-effects (sent wh ev (ok x) ∷ cs) = ap (λ ds. ds ++ (wh, ev) ∷ []) (deliveries-effects cs)
deliveries-effects (sent wh ev (err e) ∷ cs) = deliveries-effects cs
deliveries-effects (posted q ∷ cs) = deliveries-effects cs
deliveries-effects (emitted t r e ∷ cs) = deliveries-effects cs
deliveries-effects (made_dir r ∷ cs) = deliveries-effects cs
deliveries-effects (removed_dir d r ∷ cs) = deliveries-effects cs
deliveries-effects (made_file r ∷ cs) = deliveries-effects cs
deliveries-effects (removed_file f r ∷ cs) = deliveries-effects cs
deliveries-effects (cloned d u a ∷ cs) = deliveries-effects cs
deliveries-effects (checked_out h r ∷ cs) = deliveries-effects cs

-- Two lists of calls with the same effects have the same deliveries.
deliveries_of_effects : (cs ds : List Call) → effects cs ≡ ds → deliveries cs ≡ deliveries ds
deliveries_of_effects cs ds e = sym (deliveries-effects cs) ∙ ap deliveries e

deliveries-deletion :
    (b : Bool) (dc : DriftCheck) (cs : List Call) → deliveries (deletion b dc cs) ≡ deliveries cs
deliveries-deletion true dc cs = refl
deliveries-deletion false dc cs = refl

deliveries-recording :
    (b : Bool) (dc : DriftCheck) (cs : List Call) → deliveries (recording b dc cs) ≡ deliveries cs
deliveries-recording true dc cs = refl
deliveries-recording false dc cs = refl

-- The server stores the status that it is sent.
abbrev pub Stores : {S : Type 0} → World S → Type 0
Stores w = (d d' : DriftCheck) → Saves w d (ok d') → d'.status ≡ d.status

-- The comparison of a reconcile that starts with some machine lists the resources that were told.
abbrev pub Repeats :
    {S : Type 0} → Reconciler S → World S → DriftCheck → List DriftedResource → Machine S → Type 0
Repeats r w dc told m =
    (results : List DiffResult) → Answers r w dc m (ok results) → Perm told (summarize results).0

module _ {S : Type 0} (r : Reconciler S) (w : World S) (dc : DriftCheck)
    (told : List DriftedResource) where
  notify-silent_after :
      (results : List DiffResult) (now : ℕ) (d : DriftCheck)
      → dc.status.last_notified_hash ≡ drift_hash w.crypto told
      → Perm told (summarize results).0
      → d.status ≡ evaluated_status r w dc results now
      → (m : Machine S) → notify r w d m ≡ (ok tt, m)
  unfolding evaluated_status
  notify-silent_after results now d last p stored =
      notify_same_set r w d told (ap (λ s. s.last_notified_hash) stored ∙ last) (rw stored p)

  Ending-deliveries :
      (interval : ℤ) (m0 : Machine S) (cs : List Call) (out : Result Requeue × Machine S)
      → dc.status.last_notified_hash ≡ drift_hash w.crypto told
      → Repeats r w dc told m0
      → Stores w
      → Ending r w dc interval (Answers r w dc m0) (effects cs) out
      → deliveries out.1.calls ≡ deliveries cs
  Ending-deliveries interval m0 cs out last repeats stores (refused reason e answer _ traced) =
      deliveries_of_effects out.1.calls _ traced
      ∙ deliveries-deletion r.has_metrics dc (effects cs)
      ∙ deliveries-effects cs
  Ending-deliveries interval m0 cs out last repeats stores (unsettled e answer _ _ _ traced) =
      deliveries_of_effects out.1.calls _ traced ∙ deliveries-effects cs
  Ending-deliveries interval m0 cs out last repeats stores (unwritten results now e _ _ traced) =
      deliveries_of_effects out.1.calls _ traced ∙ deliveries-effects cs
  Ending-deliveries interval m0 cs out last repeats stores
        (recorded results now d m ans saved before _ traced) =
      let stored = stores (compared r w dc results now) d saved in
      let silent = notify-silent_after results now d last (repeats results ans) stored m in
      deliveries_of_effects out.1.calls _ traced
      ∙ deliveries-effects (notify r w d m).1.calls
      ∙ ap (λ o. deliveries o.1.calls) silent
      ∙ deliveries_of_effects m.calls _ before
      ∙ deliveries-recording r.has_metrics d _
      ∙ deliveries-effects cs

-- If the last fingerprint of a check is that of a set of resources, and the comparison of a reconcile,
-- if it comes to one that gives results, lists that set again, in any order, then the reconcile
-- delivers no event, however it ends. The server stores
-- the status that it is sent, the engine calls nothing but the source's `Load`, and an injected clone
-- calls nothing of the reconciler's.
pub deliveries-reconcile_found :
    {S : Type 0} (r : Reconciler S) (w : World S) (dc : DriftCheck) (told : List DriftedResource)
    → CloneKeeps effects r.git_cloner
    → EngineKeeps effects w.backends.diff
    → dc.status.last_notified_hash ≡ drift_hash w.crypto told
    → Stores w
    → (m : Machine S) → Repeats r w dc told m
    → deliveries (reconcile_found r w dc m).1.calls ≡ deliveries m.calls
deliveries-reconcile_found r w dc told quiet engine last stores m repeats =
    Ending-deliveries r w dc told (interval_or_default dc.spec.interval) m m.calls _ last repeats
      stores (reconcile_found-Ending r w dc quiet engine m)
