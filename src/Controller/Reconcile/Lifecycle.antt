-- ===== src/Controller/Reconcile/Lifecycle.antt =====
-- The life of a check: what its stored status can become.
use mathlib.Core.List.Memᴰ
use mathlib.Core.List.{Memᴰ}
use kube_drift.Common.{ℕ, Text, ◌≡◌, refl, ◌⊎◌, inl, inr, none, List, [], ◌∷◌, All, Bool-cases}
use kube_drift.Errors.{Error, Result}
use kube_drift.Machine.{Machine, Call}
use kube_drift.Libraries.{DiffResult}
use kube_drift.Api.{DriftCheck, DriftCheckStatus, DriftedResource, ℤ}
use kube_drift.Source.Checkout.Cleanup.{CloneKeeps}
use kube_drift.Controller.{World, Reconciler}
use kube_drift.Controller.Summary.{no_drift}
use kube_drift.Controller.Summary.Listed.{Describes, summarize-Describes}
use kube_drift.Controller.Fingerprint.{drift_hash}
use kube_drift.Controller.Notifying.{notify, is_silent, hash_of}
use kube_drift.Controller.Notifying.Calls.{writes, NotifierKeeps}
use kube_drift.Controller.Notifying.Silence.{notify_silent}
use kube_drift.Controller.Notifying.Told.{told, notify-writes}
use kube_drift.Controller.Reconcile.{
  Requeue, reconcile_found, evaluated_status, interval_or_default, with_condition,
}
use kube_drift.Controller.Reconcile.Effects.{effects, EngineKeeps}
use kube_drift.Controller.Reconcile.Endings.{
  Ending, refused, unsettled, unwritten, recorded, compared, unready,
}
use kube_drift.Controller.Reconcile.Repeated.{Stores}
use kube_drift.Controller.Reconcile.Written.{
  writes-effects, writes_of_effects, writes-deletion, writes-recording,
}
use kube_drift.Controller.Reconcile.Whole.{reconcile_found-Ending}

-- A status whose summary counts what it lists, which is all drift, and whose fingerprint is empty or
-- that of some set of resources.
pub record IsConsistent {S : Type 0} (w : World S) (s : DriftCheckStatus) : Type 0 where
  pub described : Describes s.summary s.drifted_resources
  pub fingerprint :
      (s.last_notified_hash ≡ [])
      ⊎ ((set : List DriftedResource) × (s.last_notified_hash ≡ drift_hash w.crypto set))

module _ {S : Type 0} (r : Reconciler S) (w : World S) where
  -- All that was written is consistent.
  abbrev AllConsistent : List Call → Type 0
  AllConsistent cs = All (λ dc. IsConsistent w dc.status) (writes cs)

  IsConsistent-unready :
      (dc : DriftCheck) (reason : Text) (e : Error)
      → IsConsistent w dc.status
      → IsConsistent w (unready r w dc reason e).status
  unfolding with_condition
  IsConsistent-unready dc reason e h = record {
    described = h.described;
    fingerprint = h.fingerprint;
  }

  IsConsistent-compared :
      (dc : DriftCheck) (results : List DiffResult) (now : ℕ)
      → IsConsistent w dc.status
      → IsConsistent w (compared r w dc results now).status
  unfolding evaluated_status
  IsConsistent-compared dc results now h = record {
    described = summarize-Describes results;
    fingerprint = h.fingerprint;
  }

  IsConsistent-told :
      (dc : DriftCheck) → IsConsistent w dc.status → IsConsistent w (told r w dc).status
  unfolding hash_of
  IsConsistent-told dc h = record {
    described = h.described;
    fingerprint = inr (dc.status.drifted_resources, refl);
  }

  module _ (quiet_writes : NotifierKeeps writes r.notifier) where
    notify-AllConsistent :
        (dc : DriftCheck) (m : Machine S)
        → IsConsistent w dc.status
        → AllConsistent m.calls
        → AllConsistent (notify r w dc m).1.calls
    notify-AllConsistent dc m h before = elim (Bool-cases (is_silent r w dc)) [
      | inl silent ↦ rw (notify_silent r w dc silent m) before
      | inr loud ↦
          let (all, written) = notify-writes r w dc m quiet_writes loud in
          rw written (elim (Bool-cases all) [
            | inl e ↦ rw e (IsConsistent-told dc h, before)
            | inr e ↦ rw e before
          ])
    ]

    Ending-AllConsistent :
        (dc : DriftCheck) (interval : ℤ) (answers : Result (List DiffResult) → Type 0)
        (cs : List Call) (out : Result Requeue × Machine S)
        → Stores w
        → IsConsistent w dc.status
        → AllConsistent cs
        → Ending r w dc interval answers (effects cs) out
        → AllConsistent out.1.calls
    Ending-AllConsistent dc interval answers cs out stores h before
          (refused reason e answer _ traced) =
        rw
          (
            writes_of_effects out.1.calls _ traced,
            writes-deletion r.has_metrics dc (effects cs),
            writes-effects cs,
          )
          (IsConsistent-unready dc reason e h, before)
    Ending-AllConsistent dc interval answers cs out stores h before
          (unsettled e answer _ _ _ traced) =
        rw (writes_of_effects out.1.calls _ traced, writes-effects cs)
          (IsConsistent-unready dc _ e h, before)
    Ending-AllConsistent dc interval answers cs out stores h before
          (unwritten results now e _ _ traced) =
        rw (writes_of_effects out.1.calls _ traced, writes-effects cs)
          (IsConsistent-compared dc results now h, before)
    Ending-AllConsistent dc interval answers cs out stores h before
          (recorded results now d m _ saved first _ traced) =
        let stored = stores (compared r w dc results now) d saved in
        let compared_h = IsConsistent-compared dc results now h in
        let consistent : IsConsistent w d.status = rw stored compared_h in
        let recorded_h : AllConsistent m.calls =
          rw
            (writes_of_effects m.calls _ first, writes-recording r.has_metrics d, writes-effects cs)
            (compared_h, before) in
        rw (writes_of_effects out.1.calls _ traced, writes-effects)
          (notify-AllConsistent d m consistent recorded_h)

-- The status of a check that was never reconciled.
abbrev pub no_status : DriftCheckStatus
no_status = record {
  last_checked_at = none;
  drifted_resources = [];
  summary = no_drift;
  observed_generation = 0;
  last_notified_hash = [];
  conditions = [];
}

module _ {S : Type 0} (r : Reconciler S) (w : World S) where
  -- What a check can become: it is created, all but its status is edited, and it gets a status that a
  -- reconcile writes.
  pub data Reachable : DriftCheck → Type 0 where
    created : {dc : DriftCheck} → dc.status ≡ no_status → Reachable dc
    edited : {dc d : DriftCheck} → Reachable dc → d.status ≡ dc.status → Reachable d
    written :
        {dc d : DriftCheck} (s : S)
        → Reachable dc
        → Memᴰ d (writes (reconcile_found r w dc (record { world = s; calls = [] })).1.calls)
        → Reachable d

  IsConsistent-no_status : IsConsistent w no_status
  IsConsistent-no_status = record {
    described = record { changed = refl; new = refl; deleted = refl; drift = tt };
    fingerprint = inl refl;
  }

  All-Memᴰ :
      (P : DriftCheck → Type 0) (dcs : List DriftCheck) (d : DriftCheck)
      → All P dcs
      → Memᴰ d dcs
      → P d
  All-Memᴰ P [] d h m = absurd (Memᴰ.not-nil m)
  All-Memᴰ P (x ∷ xs) d h m = elim (Memᴰ.cases_cons m) [
    | inl e ↦ rw e h.0
    | inr later ↦ All-Memᴰ P xs d h.1 later
  ]

  -- Whatever happens to a check, its status stays consistent: the summary counts the listed
  -- resources of each kind, all of them drifted, and the fingerprint is empty or that of a set of
  -- resources. The server stores the status that it is sent, the engine calls nothing but the
  -- source's `Load`, an injected clone calls nothing of the reconciler's, and no injected notifier
  -- writes a status.
  pub Reachable-IsConsistent :
      (dc : DriftCheck)
      → CloneKeeps effects r.git_cloner
      → EngineKeeps effects w.backends.diff
      → NotifierKeeps writes r.notifier
      → Stores w
      → Reachable dc
      → IsConsistent w dc.status
  Reachable-IsConsistent dc quiet engine keeps_writes stores (created e) =
      rw e IsConsistent-no_status
  Reachable-IsConsistent d quiet engine keeps_writes stores (edited before e) =
      rw e (Reachable-IsConsistent _ quiet engine keeps_writes stores before)
  Reachable-IsConsistent d quiet engine keeps_writes stores (written {dc} s before m) =
      let h = Reachable-IsConsistent dc quiet engine keeps_writes stores before in
      let start : Machine S = record { world = s; calls = [] } in
      All-Memᴰ (λ dc. IsConsistent w dc.status) _ d
        (Ending-AllConsistent r w keeps_writes dc (interval_or_default dc.spec.interval) _ [] _
          stores h tt (reconcile_found-Ending r w dc quiet engine start))
        m
