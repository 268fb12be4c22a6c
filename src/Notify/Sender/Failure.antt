-- ===== src/Notify/Sender/Failure.antt =====
-- How the HTTP sender fails.
use kube_drift.Common.{
  ℕ, ◌≡◌, ◌≤◌, ◌<◌, ◌⊎◌, arith, List, [], ◌∷◌, Text, text, ◌||◌, ltb, leb, Bool-cases, inl, inr,
}
use kube_drift.Errors.{Error, Result, errorf, wrapf, ok, err, Result-cases}
use kube_drift.Errors.Format.{num}
use kube_drift.Machine.{Machine, Request, Call, pure, fail, lift, act, wrapped, ◌>>=◌, posted}
use kube_drift.Libraries.{Http}
use kube_drift.Notify.{Webhook, Event}
use kube_drift.Notify.Payload.{payload}
use kube_drift.Notify.Sender.{Sender, client_of, check_status, send}

module _ {S : Type 0} (http : Http S) (s : Sender) (wh : Webhook) (ev : Event) (m : Machine S) where
  -- The failures of a send: its error, and the calls behind it.
  pub data Failure : Error → List Call → Type 0 where
    -- Nothing was sent.
    no_payload : (e : Error) → payload wh.type ev ≡ err e → Failure e m.calls
    no_request :
        (body : Text) (e : Error)
        → payload wh.type ev ≡ ok body
        → http.new_request (text "POST") wh.url body ≡ err e
        → Failure (wrapf "build webhook request: %w" [] e) m.calls
    -- One POST was sent.
    no_answer :
        (req : Request) (e : Error)
        → (http.do_request (client_of http s) req m.world).0 ≡ err e
        → Failure (wrapf "post webhook: %w" [] e) (posted req ∷ m.calls)
    bad_status :
        (req : Request) (status : ℕ)
        → (http.do_request (client_of http s) req m.world).0 ≡ ok status
        → (status < 200) ⊎ (300 ≤ status)
        → Failure (errorf "webhook returned status %d" (num status ∷ [])) (posted req ∷ m.calls)

  by_error :
      {A : Type 0} {cs : List Call} (x e : Error)
      → ◌≡◌ {A = Result A} (err x) (err e)
      → Failure x cs
      → Failure e cs
  by_error x e h f = let same : x ≡ e = cc in rw same at f

  pub send-err :
      (e : Error) → (send http s wh ev m).0 ≡ err e → Failure e (send http s wh ev m).1.calls
  unfolding send lift wrapped act check_status fail pure ◌>>=◌
  send-err e h = elim (Result-cases (payload wh.type ev)) [
    | inr (x, refused) ↦ by_error x e (rw refused at h) (rw refused (no_payload x refused))
    | inl (body, encoded) ↦ elim (Result-cases (http.new_request (text "POST") wh.url body)) [
      | inr (x, refused) ↦
          by_error _ e (rw refused at rw encoded at h)
            (rw encoded (rw refused (no_request body x encoded refused)))
      | inl (built, made) ↦
          let req : Request = record built { content_type = text "application/json" } in
          elim (Result-cases (http.do_request (client_of http s) req m.world).0) [
            | inr (x, failed) ↦
                by_error _ e (rw failed at rw made at rw encoded at h)
                  (rw encoded (rw made (rw failed (no_answer req x failed))))
            | inl (status, answered) ↦ elim (Bool-cases (ltb status 200 || leb 300 status)) [
              | inr good ↦ cc (rw good at rw answered at rw made at rw encoded at h)
              | inl bad ↦ by_error _ e (rw bad at rw answered at rw made at rw encoded at h) (
                  rw encoded (
                    rw made (rw answered (rw bad (bad_status req status answered (ground arith))))))
            ]
          ]
    ]
  ]
