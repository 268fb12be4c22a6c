-- ===== src/Tests/Noticing.antt =====
-- Examples of what webhooks hear.
use kube_drift.Common.{◌≡◌, refl, inr, some, false, [], ◌∷◌, Text, text, lines, All, arith}
use kube_drift.Notify.{Event}
use kube_drift.Notify.Json.{string, object, end, member, marshal}
use kube_drift.Notify.Payload.{slack_text, payload}
use kube_drift.Notify.Payload.Receiver.{said}
use kube_drift.Notify.Payload.Lines.{IsOneLineEvent, headline, entries, lines-payload}
use kube_drift.Notify.Payload.Unicode.{IsUnicodeEvent}
use kube_drift.Controller.{Reconciler}
use kube_drift.Controller.Summary.{build_event, drift_count}
use kube_drift.Controller.Notifying.{webhooks_of, is_resolved, notify}
use kube_drift.Controller.Notifying.Heard.{MakesRequests, Reports, Noticed, notify-Noticed}
use kube_drift.Manager.{wired}
use kube_drift.Tests.Fixtures.{S, check, http, world, start}

-- The reconciler that main sets up.
abbrev served : Reconciler S
served = wired http

http-MakesRequests : MakesRequests http
http-MakesRequests = record { of_new_request = λ method url body r h. (cc, cc, cc) }

-- What the webhook of the check hears.
abbrev heard : Event
heard = record {
  name = text "check";
  namespace = text "a";
  summary = record { changed = 1; new = 0; deleted = 0; unchanged = 1 };
  drifted =
      record {
        api_version = text "v1";
        kind = text "Pod";
        name = text "web";
        namespace = text "a";
        status = text "changed";
      }
      ∷ [];
  resolved = false;
}

heard-IsUnicode : IsUnicodeEvent heard
heard-IsUnicode = ground arith

check-IsUnicode : IsUnicodeEvent (build_event check (is_resolved served world check))
unfolding build_event is_resolved drift_count
check-IsUnicode = heard-IsUnicode

notify-Noticed_example :
    let ev = build_event check (is_resolved served world check) in
    Reports check ev
    × All (Noticed (webhooks_of served world check) ev) (notify served world check start).1.calls
unfolding wired
notify-Noticed_example =
    notify-Noticed served world check start http-MakesRequests (inr refl) check-IsUnicode tt

abbrev slack_body : Text
slack_body = marshal (object (member (text "text") (string (slack_text heard)) end))

heard-IsOneLine : IsOneLineEvent heard
heard-IsOneLine = ground arith

lines-payload_example :
    (message : Text) × (said slack_body ≡ some message)
    × (lines message ≡ headline heard ∷ entries heard)
unfolding payload
lines-payload_example = lines-payload heard slack_body heard-IsUnicode heard-IsOneLine refl
