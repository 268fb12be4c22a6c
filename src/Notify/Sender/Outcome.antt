-- ===== src/Notify/Sender/Outcome.antt =====
-- What the HTTP sender has done, by what it reports.
use kube_drift.Common.{List, inl, inr}
use kube_drift.Errors.{Result, ok, err, Result-cases}
use kube_drift.Machine.{Machine, Call}
use kube_drift.Libraries.{Http}
use kube_drift.Notify.{Webhook, Event}
use kube_drift.Notify.Sender.{Sender, send}
use kube_drift.Notify.Sender.Success.{Success, send-ok}
use kube_drift.Notify.Sender.Failure.{Failure, send-err}

module _ {S : Type 0} (http : Http S) (s : Sender) (wh : Webhook) (ev : Event) (m : Machine S) where
  abbrev pub Outcome : Result (Unit {0}) → List Call → Type 0
  Outcome (ok _) cs = Success http s wh ev m cs
  Outcome (err e) cs = Failure http s wh ev m e cs

  -- The sender reports success only for an event of a known type that it POSTed once, as JSON, to the
  -- URL of the webhook, and that was answered by a status from 200 to 299. It fails in one of four
  -- ways, each with its own error: nothing is sent for an unknown type or a request that cannot be
  -- made; one POST is sent if it is not answered, or not with a status from 200 to 299.
  pub send-Outcome : Outcome (send http s wh ev m).0 (send http s wh ev m).1.calls
  send-Outcome = elim (Result-cases (send http s wh ev m).0) [
    | inl (tt, h) ↦ rw h (send-ok http s wh ev m h)
    | inr (e, h) ↦ rw h (send-err http s wh ev m e h)
  ]
