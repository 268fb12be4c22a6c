-- ===== src/Notify/Sender/Success.antt =====
-- How the HTTP sender succeeds.
use kube_drift.Common.{
  ℕ, ◌≡◌, refl, ap, ◌≤◌, ◌<◌, arith, List, ◌∷◌, Text, text, ◌||◌, ltb, leb, Bool-cases, inl, inr,
}
use kube_drift.Errors.{ok, Result-cases}
use kube_drift.Machine.{Machine, Request, Call, pure, fail, lift, act, wrapped, ◌>>=◌, posted}
use kube_drift.Libraries.{Http}
use kube_drift.Notify.{Webhook, Event}
use kube_drift.Notify.Payload.{payload}
use kube_drift.Notify.Sender.{Sender, client_of, check_status, send}

check_status-ok :
    {S : Type 0} (status : ℕ) (m : Machine S)
    → (check_status status m).0 ≡ ok tt
    → (200 ≤ status) × (status < 300) × ((check_status status m).1 ≡ m)
unfolding check_status pure fail
check_status-ok status m h = elim (Bool-cases (ltb status 200 || leb 300 status)) [
  | inl bad ↦ cc (rw bad at h)
  | inr good ↦ (ground arith, ground arith, rw good refl)
]

-- What a send that succeeds has done: an event of a known type was POSTed once, as JSON, to the URL of
-- the webhook, and answered by a status from 200 to 299.
abbrev pub Success :
    {S : Type 0} → Http S → Sender → Webhook → Event → Machine S → List Call → Type 0
Success http s wh ev m cs =
    (body : Text) × (built : Request) × (status : ℕ) × (payload wh.type ev ≡ ok body)
    × (http.new_request (text "POST") wh.url body ≡ ok built)
    × let req : Request = record built { content_type = text "application/json" } in
      ((http.do_request (client_of http s) req m.world).0 ≡ ok status)
      × (200 ≤ status)
      × (status < 300)
      × (cs ≡ posted req ∷ m.calls)

pub send-ok :
    {S : Type 0} (http : Http S) (s : Sender) (wh : Webhook) (ev : Event) (m : Machine S)
    → (send http s wh ev m).0 ≡ ok tt
    → Success http s wh ev m (send http s wh ev m).1.calls
unfolding send lift wrapped act ◌>>=◌
send-ok http s wh ev m h = elim (Result-cases (payload wh.type ev)) [
  | inr (e, refused) ↦ cc (rw refused at h)
  | inl (body, encoded) ↦ elim (Result-cases (http.new_request (text "POST") wh.url body)) [
    | inr (e, refused) ↦ cc (rw refused at rw encoded at h)
    | inl (built, made) ↦
        let req : Request = record built { content_type = text "application/json" } in
        elim (Result-cases (http.do_request (client_of http s) req m.world).0) [
          | inr (e, failed) ↦ cc (rw failed at rw made at rw encoded at h)
          | inl (status, answered) ↦
              let (low, high, kept) =
                check_status-ok status _ (rw answered at rw made at rw encoded at h) in
              (
                body,
                built,
                status,
                encoded,
                made,
                (answered, low, high, rw encoded (rw made (rw answered (ap (λ x. x.calls) kept)))),
              )
        ]
  ]
]
