-- ===== src/Controller/Notifying/Calls.antt =====
-- Views of the calls of `notify`, and which of its parts they do not see.
use kube_drift.Common.{
  ℕ, ◌≡◌, refl, Option, none, some, List, [], ◌∷◌, ◌++◌, Text, is_empty, trim_space,
}
use kube_drift.Errors.{Error, Result, ok}
use kube_drift.Machine.{Call, Request, updated_status, sent, emitted, posted}
use kube_drift.Machine.Rules.{
  Keeps, Keeps-bind, Keeps-pure, Keeps-option, Keeps-if, Keeps-fail, keeps_rules,
}
use kube_drift.Api
use kube_drift.Api.{DriftCheck}
use kube_drift.Notify
use kube_drift.Notify.Sender.{send, new_sender, check_status}
use kube_drift.Controller.{World, Reconciler, Notifier}
use kube_drift.Controller.ConfigMaps.{entry}
use kube_drift.Controller.Notifying.{
  event, secret_url, resolve_webhook_url, notifier_of, notify_failed,
}

-- The objects whose status was written, the latest first, with failed writes.
abbrev pub writes : List Call → List DriftCheck
writes [] = []
writes (updated_status dc r ∷ cs) = dc ∷ writes cs
writes (_ ∷ cs) = writes cs

-- The webhooks that took an event, the earliest first.
abbrev pub deliveries : List Call → List (Notify.Webhook × Notify.Event)
deliveries [] = []
deliveries (sent wh ev (ok _) ∷ cs) = deliveries cs ++ (wh, ev) ∷ []
deliveries (_ ∷ cs) = deliveries cs

-- What was sent to webhooks, the earliest first, with the answers.
abbrev pub attempts : List Call → List (Notify.Webhook × Notify.Event × Result (Unit {0}))
attempts [] = []
attempts (sent wh ev r ∷ cs) = attempts cs ++ (wh, ev, r) ∷ []
attempts (_ ∷ cs) = attempts cs

-- A view that sees no lookup, no event and no POST.
pub record IgnoresNotices {V : Type 0} (view : List Call → V) : Type 0 where
  pub of_emitted : (t r e : Text) (cs : List Call) → view (emitted t r e ∷ cs) ≡ view cs
  pub of_posted : (q : Request) (cs : List Call) → view (posted q ∷ cs) ≡ view cs

pub writes-IgnoresNotices : IgnoresNotices writes
writes-IgnoresNotices = record { of_emitted = λ t r e cs. refl; of_posted = λ q cs. refl }

pub attempts-IgnoresNotices : IgnoresNotices attempts
attempts-IgnoresNotices = record { of_emitted = λ t r e cs. refl; of_posted = λ q cs. refl }

-- An injected notifier that keeps the view; the default one is the HTTP sender.
abbrev pub NotifierKeeps : {S V : Type 0} → (List Call → V) → Option (Notifier S) → Type 0
NotifierKeeps view none = Unit
NotifierKeeps view (some n) = (wh : Notify.Webhook) (ev : Notify.Event) → Keeps view (n wh ev)

module _ {S V : Type 0} {view : List Call → V} (ignores : IgnoresNotices view) (r : Reconciler S)
    (w : World S) where
  Keeps-check_status : (status : ℕ) → Keeps view (check_status {S = S} status)
  unfolding check_status
  Keeps-check_status status = search keeps_rules

  pub Keeps-send :
      (wh : Notify.Webhook) (ev : Notify.Event) → Keeps view (send w.http new_sender wh ev)
  unfolding send
  Keeps-send wh ev = search (keeps_rules, ignores.of_posted, Keeps-check_status) depth 12

  pub Keeps-notifier_of :
      NotifierKeeps view r.notifier
      → (wh : Notify.Webhook) (ev : Notify.Event) → Keeps view (notifier_of r w wh ev)
  unfolding notifier_of
  Keeps-notifier_of h wh ev = go r.notifier h
    where
      go :
          (n : Option (Notifier S))
          → NotifierKeeps view n
          → Keeps view
              ((elim n as (λ _. Notifier S) [ some f ↦ f | none ↦ send w.http new_sender ]) wh ev)
      go none h = Keeps-send wh ev
      go (some f) h = h wh ev

  pub Keeps-event : (t reason message : Text) → Keeps view (event r w t reason message)
  unfolding event
  Keeps-event t reason message = search (keeps_rules, ignores.of_emitted)

  pub Keeps-notify_failed : (e : Error) → Keeps view (notify_failed r w e)
  unfolding notify_failed
  Keeps-notify_failed e = search (keeps_rules, Keeps-event)

  Keeps-secret_url : (ns : Text) (ref : Api.SecretKeyRef) → Keeps view (secret_url r w ns ref)
  unfolding secret_url
  Keeps-secret_url ns ref = Keeps-bind _ _ (search keeps_rules) (λ sec.
      Keeps-option (entry ref.key sec.entries) _ _
        (λ v. Keeps-if (is_empty (trim_space v)) _ _ (Keeps-fail _) (Keeps-pure _)) (Keeps-fail _))

  pub Keeps-resolve_webhook_url :
      (ns : Text) (wh : Api.Webhook) → Keeps view (resolve_webhook_url r w ns wh)
  unfolding resolve_webhook_url
  Keeps-resolve_webhook_url ns wh =
      Keeps-option wh.url_secret_ref _ _ (Keeps-secret_url ns)
        (Keeps-if (is_empty wh.url) _ _ (Keeps-fail _) (Keeps-pure _))
