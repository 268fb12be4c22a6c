-- ===== src/Notify/Sender.antt =====
-- `Sender.Send` of internal/notify/notify.go
pub mod Success
pub mod Outcome
pub mod Failure
use kube_drift.Common.{
  ℕ, Bool, Option, none, some, List, [], ◌∷◌, Text, text, ltb, leb, ◌||◌, if◌then◌else◌,
}
use kube_drift.Errors.{Result, errorf}
use kube_drift.Errors.Format.{num}
use kube_drift.Machine.{Exec, Request, pure, fail, lift, act, wrapped, ◌>>=◌, posted}
use kube_drift.Libraries.{Http, Client}
use kube_drift.Notify.{Webhook, Event}
use kube_drift.Notify.Payload.{payload}

pub record Sender : Type 0 where
  pub client : Option Client

-- A timeout of ten seconds, in nanoseconds.
unfoldable pub new_sender : Sender
new_sender = record { client = some (record { timeout = 10_000_000_000 }) }

unfoldable pub check_status : {S : Type 0} → ℕ → Exec S (Unit {0})
check_status status =
    if ltb status 200 || leb 300 status
    then fail (errorf "webhook returned status %d" (num status ∷ []))
    else pure tt

module _ {S : Type 0} (http : Http S) where
  unfoldable pub client_of : Sender → Client
  client_of s = elim s.client [ none ↦ http.default_client | some c ↦ c ]

  unfoldable pub send : Sender → Webhook → Event → Exec S (Unit {0})
  unfolding client_of check_status
  send s wh ev = do
    body ← lift (payload wh.type ev)
    built ←
        wrapped "build webhook request: %w" [] (lift (http.new_request (text "POST") wh.url body))
    let req : Request = record built { content_type = text "application/json" }
    status ←
        wrapped "post webhook: %w" [] (act (λ _. posted req) (http.do_request (client_of s) req))
    check_status status
