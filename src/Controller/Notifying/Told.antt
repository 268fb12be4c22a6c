-- ===== src/Controller/Notifying/Told.antt =====
-- What a `notify` that is not silent sends and writes.
use kube_drift.Common.{
  ◌≡◌, refl, ap, ◌∙◌, Bool, true, false, List, ◌∷◌, ◌++◌, not, map, if◌then◌else◌, inl, inr,
}
use kube_drift.Errors.{Result-cases}
use kube_drift.Machine.{Machine, Exec, pure, ◌>>=◌, ◌>>◌}
use kube_drift.Machine.Rules.{Keeps, keeps_rules}
use kube_drift.Api.{DriftCheck}
use kube_drift.Controller.{World, Reconciler}
use kube_drift.Controller.Summary.{build_event}
use kube_drift.Controller.Notifying.{
  update_status, deliver, webhooks_of, announce, hash_of, is_resolved, is_silent, notify,
}
use kube_drift.Controller.Notifying.Calls.{writes, attempts, writes-IgnoresNotices, NotifierKeeps}
use kube_drift.Controller.Notifying.Loop.{Keeps-deliver}
use kube_drift.Controller.Notifying.Delivery.{Attempt, Reached, deliver-Reached}

module _ {S : Type 0} (r : Reconciler S) (w : World S) where
  -- The object that is written: the check with the fingerprint of what its status lists.
  abbrev pub told : DriftCheck → DriftCheck
  told dc = record dc { status = record dc.status { last_notified_hash = hash_of r w dc } }

  -- What follows the loop.
  abbrev closing : DriftCheck → Bool → Exec S (Unit {0})
  closing dc failed = if failed then pure tt else update_status r w (told dc) >> pure tt

  closing-writes :
      (dc : DriftCheck) (all : Bool) (m : Machine S)
      → writes (closing dc (not all) m).1.calls
        ≡ (if all then told dc ∷ writes m.calls else writes m.calls)
  unfolding update_status ◌>>=◌
  closing-writes dc false m = refl
  closing-writes dc true m = elim (Result-cases (w.kube.update_status (told dc) m.world).0) [
    | inl (a, h) ↦ rw h
    | inr (e, h) ↦ rw h
  ]

  closing-attempts : (dc : DriftCheck) (failed : Bool) → Keeps attempts (closing dc failed)
  unfolding update_status
  closing-attempts dc failed = search keeps_rules

  -- A `notify` that is not silent goes through the check's webhooks in order, whatever each answers.
  -- It passes over only those that have no URL: neither one inline nor a Secret is given, the Secret
  -- cannot be read, or its key has nothing. Each other one is sent the check's event, once, with the
  -- answer that the notifier gives. The status is written exactly if none was passed over and all
  -- took the event, once, with the fingerprint of the drifted resources. No injected notifier writes
  -- a status or itself notes an attempt.
  pub notify-Reached :
      (dc : DriftCheck) (m : Machine S)
      → NotifierKeeps writes r.notifier
      → NotifierKeeps attempts r.notifier
      → is_silent r w dc ≡ false
      → let m' = (notify r w dc m).1 in
        let ev = build_event dc (is_resolved r w dc) in
        (ts : List Attempt) × (all : Bool) × Reached r w dc.namespace ev (webhooks_of r w dc) ts all
        × (attempts m'.calls ≡ attempts m.calls ++ map (λ t. (t.0, ev, t.1)) ts)
        × (writes m'.calls ≡ (if all then told dc ∷ writes m.calls else writes m.calls))
  unfolding notify announce ◌>>=◌
  notify-Reached dc m keeps_writes keeps_attempts loud =
      let ev = build_event dc (is_resolved r w dc) in
      let whs = webhooks_of r w dc in
      let (ts, all, reached, result, gained) =
        deliver-Reached r w keeps_attempts dc.namespace ev whs false m in
      let m1 = (deliver r w dc.namespace ev whs false m).1 in
      let kept =
        (Keeps-deliver writes-IgnoresNotices (λ t ev a cs. refl) r w keeps_writes dc.namespace ev
            whs false).at
          m in
      rw loud (
        rw result (
          ts,
          all,
          reached,
          (closing-attempts dc (not all)).at m1 ∙ gained,
          closing-writes dc all m1 ∙ ap (λ ds. if all then told dc ∷ ds else ds) kept,
        ))

  -- A `notify` that is not silent writes the check with its fingerprint, or nothing.
  pub notify-writes :
      (dc : DriftCheck) (m : Machine S)
      → NotifierKeeps writes r.notifier
      → is_silent r w dc ≡ false
      → (all : Bool) × (writes (notify r w dc m).1.calls
          ≡ (if all then told dc ∷ writes m.calls else writes m.calls))
  unfolding notify announce ◌>>=◌
  notify-writes dc m keeps loud =
      let ev = build_event dc (is_resolved r w dc) in
      let whs = webhooks_of r w dc in
      let m1 = (deliver r w dc.namespace ev whs false m).1 in
      let kept =
        (Keeps-deliver writes-IgnoresNotices (λ t ev a cs. refl) r w keeps dc.namespace ev whs
            false).at
          m in
      elim (Result-cases (deliver r w dc.namespace ev whs false m).0) [
        | inl (true, missed) ↦ rw loud (rw missed (false, kept))
        | inl (false, heard) ↦
            rw loud (rw heard (true, closing-writes dc true m1 ∙ ap (λ ds. told dc ∷ ds) kept))
        | inr (e, failed) ↦ rw loud (rw failed (false, kept))
      ]
