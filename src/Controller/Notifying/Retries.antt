-- ===== src/Controller/Notifying/Retries.antt =====
-- Rounds of `notify` on a drift that stays.
use kube_drift.Notify.{Event}
use kube_drift.Common.{map, ◌≡◌, true, false, List, [], ◌∷◌}
use kube_drift.Errors.{ok}
use kube_drift.Machine.{Machine}
use kube_drift.Api.{DriftCheck}
use kube_drift.Controller.{World, Reconciler}
use kube_drift.Controller.Summary.{build_event}
use kube_drift.Controller.Notifying.{webhooks_of, is_resolved, notify}
use kube_drift.Controller.Notifying.Calls.{writes, attempts}
use kube_drift.Controller.Notifying.Delivery.{Attempt, Reached}
use kube_drift.Controller.Notifying.Told.{told}

module _ {S : Type 0} (r : Reconciler S) (w : World S) where
  abbrev latest : DriftCheck → List DriftCheck → DriftCheck
  latest dc [] = dc
  latest dc (d ∷ ds) = d

  abbrev pub at_start : S → Machine S
  at_start s = record { world = s; calls = [] }

  abbrev pub event_of : DriftCheck → Event
  event_of dc = build_event dc (is_resolved r w dc)

  -- The check that is stored after a `notify` in a world.
  abbrev pub after_notify : DriftCheck → S → DriftCheck
  after_notify dc s = latest dc (writes (notify r w dc (at_start s)).1.calls)

  -- And after one in each of some worlds, the first one first.
  abbrev pub after_rounds : DriftCheck → List S → DriftCheck
  after_rounds dc [] = dc
  after_rounds dc (s ∷ worlds) = after_rounds (after_notify dc s) worlds

  -- What a check that has something to tell becomes by a `notify` in each of some worlds, the first
  -- one first. In each, its event is sent once to each webhook that has a URL, until a world in which
  -- no webhook is passed over and all take it; the check is then told.
  pub data Rounds (dc : DriftCheck) : List S → DriftCheck → Type 0 where
    not_yet : Rounds dc [] dc
    missed :
        {s : S} {worlds : List S} {ts : List Attempt} {d : DriftCheck}
        → Reached r w dc.namespace (event_of dc) (webhooks_of r w dc) ts false
        → attempts (notify r w dc (at_start s)).1.calls ≡ map (λ t. (t.0, event_of dc, t.1)) ts
        → Rounds dc worlds d
        → Rounds dc (s ∷ worlds) d
    heard :
        {s : S} {worlds : List S} {ts : List Attempt}
        → Reached r w dc.namespace (event_of dc) (webhooks_of r w dc) ts true
        → attempts (notify r w dc (at_start s)).1.calls ≡ map (λ t. (t.0, event_of dc, t.1)) ts
        → ((s' : S) → notify r w (told r w dc) (at_start s') ≡ (ok tt, at_start s'))
        → Rounds dc (s ∷ worlds) (told r w dc)
