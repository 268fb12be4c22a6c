-- ===== src/Controller/Reconcile/Isolation.antt =====
-- What the reconciles of some checks leave of another check.
use kube_drift.Common.{
  ◌≡◌, refl, ap, sym, ◌∙◌, Bool, true, false, List, [], ◌∷◌, Text, All, ◌==◌, ◌&&◌, if◌then◌else◌,
  inl, inr,
}
use kube_drift.Errors.{Error, Result, ok, err, Result-cases}
use kube_drift.Machine.{
  Machine, Call, updated_status, set_gauge, deleted_gauges, sent, posted, emitted, made_dir,
  removed_dir, made_file, removed_file, cloned, checked_out, ask, attempt, fail, pure, ◌>>=◌, ◌>>◌,
}
use kube_drift.Machine.Rules.{
  Keeps, Keeps-bind, Keeps-pure, Keeps-if, Keeps-act, Keeps-effect, Keeps-fail,
}
use kube_drift.Libraries.{DiffResult, NamespacedName}
use kube_drift.Api.{DriftCheck, ℤ}
use kube_drift.Source.Checkout.Cleanup.{CloneKeeps}
use kube_drift.Metrics.{delete}
use kube_drift.Controller.{World, Reconciler}
use kube_drift.Controller.Summary.{build_event}
use kube_drift.Controller.Notifying.{
  update_status, announce, webhooks_of, notify, is_silent, is_resolved, hash_of,
}
use kube_drift.Controller.Notifying.Calls.{IgnoresNotices, NotifierKeeps}
use kube_drift.Controller.Notifying.Loop.{Keeps-deliver}
use kube_drift.Controller.Reconcile.{Requeue, no_requeue, reconcile}
use kube_drift.Controller.Reconcile.Effects.{effects, EngineKeeps}
use kube_drift.Controller.Reconcile.Endings.{
  Ending, refused, unsettled, unwritten, recorded, deletion, recording, compared, Saves,
}
use kube_drift.Controller.Reconcile.Whole.{reconcile_found-Ending}

-- The writes of the status of a check, and the changes of its gauges, the latest first.
abbrev pub touched : NamespacedName → List Call → List Call
touched x [] = []
touched x (updated_status dc r ∷ cs) =
    let rest = touched x cs in
    if dc.name == x.name && dc.namespace == x.namespace then updated_status dc r ∷ rest else rest
touched x (set_gauge n ns s v ∷ cs) =
    let rest = touched x cs in
    if n == x.name && ns == x.namespace then set_gauge n ns s v ∷ rest else rest
touched x (deleted_gauges n ns ∷ cs) =
    let rest = touched x cs in
    if n == x.name && ns == x.namespace then deleted_gauges n ns ∷ rest else rest
touched x (_ ∷ cs) = touched x cs

-- The API server answers with the object that is asked for.
pub record AnswersByName {S : Type 0} (w : World S) : Type 0 where
  pub of_get :
      (req : NamespacedName) (s : S) (dc : DriftCheck)
      → (w.kube.get_drift_check req s).0 ≡ ok dc
      → (dc.name ≡ req.name) × (dc.namespace ≡ req.namespace)
  pub of_update :
      (d d' : DriftCheck) → Saves w d (ok d') → (d'.name ≡ d.name) × (d'.namespace ≡ d.namespace)

module _ (x : NamespacedName) where
  abbrev pub IsOther : Text → Text → Type 0
  IsOther n ns = (n == x.name && ns == x.namespace) ≡ false

  touched-effects : (cs : List Call) → touched x (effects cs) ≡ touched x cs
  touched-effects [] = refl
  touched-effects (updated_status dc r ∷ cs) = rw (touched-effects cs) refl
  touched-effects (set_gauge n ns s v ∷ cs) = rw (touched-effects cs) refl
  touched-effects (deleted_gauges n ns ∷ cs) = rw (touched-effects cs) refl
  touched-effects (sent wh ev r ∷ cs) = touched-effects cs
  touched-effects (posted q ∷ cs) = touched-effects cs
  touched-effects (emitted t r e ∷ cs) = touched-effects cs
  touched-effects (made_dir r ∷ cs) = touched-effects cs
  touched-effects (removed_dir d r ∷ cs) = touched-effects cs
  touched-effects (made_file r ∷ cs) = touched-effects cs
  touched-effects (removed_file f r ∷ cs) = touched-effects cs
  touched-effects (cloned d u a ∷ cs) = touched-effects cs
  touched-effects (checked_out h r ∷ cs) = touched-effects cs

  touched_of_effects : (cs ds : List Call) → effects cs ≡ ds → touched x cs ≡ touched x ds
  touched_of_effects cs ds e = sym (touched-effects cs) ∙ ap (touched x) e

  touched-write :
      (d : DriftCheck) (r : Result DriftCheck) (cs : List Call)
      → IsOther d.name d.namespace
      → touched x (updated_status d r ∷ cs) ≡ touched x cs
  touched-write d r cs other = rw other refl

  touched-deletion :
      (b : Bool) (d : DriftCheck) (cs : List Call)
      → IsOther d.name d.namespace
      → touched x (deletion b d cs) ≡ touched x cs
  touched-deletion true d cs other = rw other refl
  touched-deletion false d cs other = refl

  touched-recording :
      (b : Bool) (d : DriftCheck) (cs : List Call)
      → IsOther d.name d.namespace
      → touched x (recording b d cs) ≡ touched x cs
  touched-recording true d cs other = rw other refl
  touched-recording false d cs other = refl

  touched-IgnoresNotices : IgnoresNotices (touched x)
  touched-IgnoresNotices = record { of_emitted = λ t r e cs. refl; of_posted = λ q cs. refl }

  module _ {S : Type 0} (r : Reconciler S) (w : World S) where
    module _ (quiet : NotifierKeeps (touched x) r.notifier) (d : DriftCheck)
        (other : IsOther d.name d.namespace) where
      Keeps-announce :
          (hash : Text) (resolved : Bool) → Keeps (touched x) (announce r w d hash resolved)
      unfolding announce update_status
      Keeps-announce hash resolved =
          Keeps-bind _ _
            (Keeps-deliver touched-IgnoresNotices (λ t ev answer cs. refl) r w quiet d.namespace
              (build_event d resolved) (webhooks_of r w d) false)
            (λ failed. Keeps-if failed _ _ (Keeps-pure tt) (
              Keeps-bind _ _ (Keeps-act _ _ (λ answer cs. touched-write _ answer cs other))
                (λ d. Keeps-pure tt)))

      Keeps-notify : Keeps (touched x) (notify r w d)
      unfolding notify
      Keeps-notify =
          Keeps-if (is_silent r w d) _ _ (Keeps-pure tt)
            (Keeps-announce (hash_of r w d) (is_resolved r w d))

    Keeps-delete :
        (metrics : Bool) (n ns : Text)
        → IsOther n ns
        → Keeps (touched x) (delete w.gauges metrics n ns)
    unfolding delete
    Keeps-delete false n ns other = Keeps-pure tt
    Keeps-delete true n ns other = Keeps-effect _ _ (λ cs. rw other refl)

    -- What follows a lookup that fails.
    Keeps-missing :
        (req : NamespacedName) (e : Error)
        → IsOther req.name req.namespace
        → Keeps (touched x) (
            if w.kube.is_not_found e
            then (do delete w.gauges r.has_metrics req.name req.namespace; pure no_requeue)
            else fail e)
    Keeps-missing req e other =
        Keeps-if (w.kube.is_not_found e) _ _
          (Keeps-bind _ _ (Keeps-delete r.has_metrics req.name req.namespace other)
            (λ t. Keeps-pure no_requeue))
          (Keeps-fail e)

    module _ (quiet : NotifierKeeps (touched x) r.notifier) (named : AnswersByName w) where
      Ending-touched :
          (dc : DriftCheck) (interval : ℤ) (answers : Result (List DiffResult) → Type 0)
          (cs : List Call) (out : Result Requeue × Machine S)
          → IsOther dc.name dc.namespace
          → Ending r w dc interval answers (effects cs) out
          → touched x out.1.calls ≡ touched x cs
      Ending-touched dc interval answers cs out other (refused reason e answer _ traced) =
          touched_of_effects out.1.calls _ traced
          ∙ touched-write _ answer (deletion r.has_metrics dc (effects cs)) other
          ∙ touched-deletion r.has_metrics dc (effects cs) other
          ∙ touched-effects cs
      Ending-touched dc interval answers cs out other (unsettled e answer _ _ _ traced) =
          touched_of_effects out.1.calls _ traced
          ∙ touched-write _ answer (effects cs) other
          ∙ touched-effects cs
      Ending-touched dc interval answers cs out other (unwritten results now e _ _ traced) =
          touched_of_effects out.1.calls _ traced
          ∙ touched-write _ (err e) (effects cs) other
          ∙ touched-effects cs
      Ending-touched dc interval answers cs out other
            (recorded results now d m _ saved before _ traced) =
          let (name, namespace) = named.of_update (compared r w dc results now) d saved in
          let same : IsOther d.name d.namespace = rw (name, namespace) other in
          touched_of_effects out.1.calls _ traced
          ∙ touched-effects (notify r w d m).1.calls
          ∙ (Keeps-notify quiet d same).at m
          ∙ touched_of_effects m.calls _ before
          ∙ touched-recording r.has_metrics d _ same
          ∙ touched-write _ (ok d) (effects cs) other
          ∙ touched-effects cs

      module _ (cloner : CloneKeeps effects r.git_cloner)
          (engine : EngineKeeps effects w.backends.diff) where
        touched-reconcile :
            (req : NamespacedName) (m : Machine S)
            → IsOther req.name req.namespace
            → touched x (reconcile r w req m).1.calls ≡ touched x m.calls
        unfolding reconcile ask attempt ◌>>=◌
        touched-reconcile req m other = elim (Result-cases (w.kube.get_drift_check req m.world).0) [
          | inl (dc, found) ↦
              let (name, namespace) = named.of_get req m.world dc found in
              let same : IsOther dc.name dc.namespace = rw (name, namespace) other in
              let m1 = (ask (w.kube.get_drift_check req) m).1 in
              rw found (
                Ending-touched dc _ _ m1.calls _ same
                  (reconcile_found-Ending r w dc cloner engine m1))
          | inr (e, missing) ↦
              rw missing ((Keeps-missing req e other).at (ask (w.kube.get_drift_check req) m).1)
        ]

-- The reconciles of some requests, one after the other, as the controller's queue gives them.
abbrev pub reconciles :
    {S : Type 0} → Reconciler S → World S → List NamespacedName → Machine S → Machine S
reconciles r w [] m = m
reconciles r w (req ∷ reqs) m = reconciles r w reqs (reconcile r w req m).1

-- However many reconciles of other checks run, in whatever order and however they end, they write no
-- status of a check and change none of its gauges. The API server answers with the object that is
-- asked for, the engine calls nothing but the source's `Load`, an injected clone calls nothing of the
-- reconciler's, and an injected notifier nothing of the check's.
pub touched-reconciles :
    {S : Type 0} (x : NamespacedName) (r : Reconciler S) (w : World S)
    → NotifierKeeps (touched x) r.notifier
    → AnswersByName w
    → CloneKeeps effects r.git_cloner
    → EngineKeeps effects w.backends.diff
    → (reqs : List NamespacedName) (m : Machine S)
    → All (λ req. IsOther x req.name req.namespace) reqs
    → touched x (reconciles r w reqs m).calls ≡ touched x m.calls
touched-reconciles x r w quiet named cloner engine [] m others = refl
touched-reconciles x r w quiet named cloner engine (req ∷ reqs) m (other, others) =
    touched-reconciles x r w quiet named cloner engine reqs (reconcile r w req m).1 others
    ∙ touched-reconcile x r w quiet named cloner engine req m other
