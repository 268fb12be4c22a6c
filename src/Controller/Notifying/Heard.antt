-- ===== src/Controller/Notifying/Heard.antt =====
-- What the webhooks of a check hear, with the HTTP sender: the requests that a `notify` POSTs.
use mathlib.Core.List.{Memᴰ}
use kube_drift.Common.{
  ◌↔◌, ap, map, arith, ℕ, ◌≡◌, refl, ◌∙◌, ◌⊎◌, inl, inr, Bool, true, false, none, some, List, [],
  ◌∷◌, Text, text, All, is_empty, trim_space, not, ◌||◌,
}
use kube_drift.Errors.{Error, Result, ok, err}
use kube_drift.Machine.{Machine, Call, Request, posted}
use kube_drift.Machine.Rules.{Yields-lift, Yields-wrapped, Yields-attempt}
use kube_drift.Machine.Additions.{
  Adds, Adds-pure, Adds-fail, Adds-lift, Adds-act, Adds-attempt, Adds-wrapped, Adds-if, Adds-option,
  Adds-bind, Adds-bind_of, adds_rules,
}
use kube_drift.Libraries.{Http}
use kube_drift.Api
use kube_drift.Api.{DriftedResource, DriftCheck, WebhookType, slack, generic, other}
use kube_drift.Notify
use kube_drift.Notify.Payload.{payload}
use kube_drift.Notify.Payload.Unicode.{IsUnicodeEvent}
use kube_drift.Notify.Payload.Message.{Tells, payload-Tells}
use kube_drift.Notify.Sender.{send, new_sender, check_status}
use kube_drift.Controller.{World, Reconciler}
use kube_drift.Controller.ConfigMaps.{entry}
use kube_drift.Controller.Summary.{build_event, to_resources, drift_count}
use kube_drift.Controller.Notifying.{
  update_status, event, secret_url, resolve_webhook_url, notifier_of, noted_send, notify_failed,
  after_send, after_url, deliver_one, deliver, webhooks_of, announce, is_resolved, is_silent,
  notify,
}
use kube_drift.Controller.Notifying.Delivery.{IsTarget, IsUrl, Yields-resolve_webhook_url}

-- net/http keeps what a request is made of.
pub record MakesRequests {S : Type 0} (http : Http S) : Type 0 where
  pub of_new_request :
      (method url body : Text) (r : Request)
      → http.new_request method url body ≡ ok r
      → (r.method ≡ method) × (r.url ≡ url) × (r.body ≡ body)

-- A POST of JSON to a webhook of the list, at its inline URL unless a Secret is named.
pub record IsNotice (whs : List Api.Webhook) (ev : Notify.Event) (r : Request) : Type 0 where
  pub webhook : Api.Webhook
  pub listed : Memᴰ webhook whs
  pub target : IsTarget webhook (record { type = webhook.type; url = r.url })
  pub method : r.method ≡ text "POST"
  pub content_type : r.content_type ≡ text "application/json"
  pub tells : Tells webhook.type ev r.body

abbrev pub Noticed : List Api.Webhook → Notify.Event → Call → Type 0
Noticed whs ev (posted r) = IsNotice whs ev r
Noticed whs ev _ = Unit

-- The notifier is the HTTP sender, as main sets it or by default.
abbrev pub UsesSender : {S : Type 0} → Reconciler S → World S → Type 0
UsesSender r w = (r.notifier ≡ none) ⊎ (r.notifier ≡ some (send w.http new_sender))

notifier_of-send :
    {S : Type 0} (r : Reconciler S) (w : World S)
    → UsesSender r w
    → notifier_of r w ≡ send w.http new_sender
unfolding notifier_of
notifier_of-send r w (inl h) = rw h refl
notifier_of-send r w (inr h) = rw h refl

module _ {S : Type 0} (r : Reconciler S) (w : World S) (makes : MakesRequests w.http)
    (whs : List Api.Webhook) (ev : Notify.Event) (unicode : IsUnicodeEvent ev) where
  sent-IsNotice :
      (wh : Api.Webhook) (url : Text)
      → Memᴰ wh whs
      → IsUrl wh url
      → (body : Text) (built : Request) → payload wh.type ev ≡ ok body
      → w.http.new_request (text "POST") url body ≡ ok built
      → IsNotice whs ev (record built { content_type = text "application/json" })
  sent-IsNotice wh url listed is_url body built encoded made =
      let (method, same_url, same_body) = makes.of_new_request (text "POST") url body built made in
      record {
        webhook = wh;
        listed = listed;
        target = record {
          type = refl;
          url = rw same_url is_url.0;
          inline = λ h. same_url ∙ is_url.1 h;
        };
        method = method;
        content_type = refl;
        tells = rw same_body (payload-Tells wh.type ev body unicode encoded);
      }

  Adds-check_status : (status : ℕ) → Adds (Noticed whs ev) (check_status {S = S} status)
  unfolding check_status
  Adds-check_status status = search adds_rules

  Adds-send :
      (wh : Api.Webhook) (url : Text)
      → Memᴰ wh whs
      → IsUrl wh url
      → Adds (Noticed whs ev) (send w.http new_sender (record { type = wh.type; url = url }) ev)
  unfolding send
  Adds-send wh url listed is_url =
      Adds-bind_of {Q = λ body. payload wh.type ev ≡ ok body} _ _ (Adds-lift _)
        (Yields-lift _ (λ body h. h))
        (λ body encoded.
          Adds-bind_of {Q = λ built. w.http.new_request (text "POST") url body ≡ ok built} _ _
            (Adds-wrapped _ _ _ (Adds-lift _)) (Yields-wrapped _ _ _ (Yields-lift _ (λ built h. h)))
            (λ built made.
              Adds-bind _ _
                (Adds-wrapped _ _ _
                  (Adds-act _ _ (λ a. sent-IsNotice wh url listed is_url body built encoded made)))
                Adds-check_status))

  module _ (sends : UsesSender r w) where
    Adds-noted_send :
        (wh : Api.Webhook) (url : Text)
        → Memᴰ wh whs
        → IsUrl wh url
        → Adds (Noticed whs ev) (noted_send r w (record { type = wh.type; url = url }) ev)
    unfolding noted_send
    Adds-noted_send wh url listed is_url = record {
      at = λ m h. (tt, rw (notifier_of-send r w sends) ((Adds-send wh url listed is_url).at m h));
    }

    Adds-notify_failed : (e : Error) → Adds (Noticed whs ev) (notify_failed r w e)
    unfolding notify_failed event
    Adds-notify_failed e = search adds_rules

    Adds-after_send : (answer : Result (Unit {0})) → Adds (Noticed whs ev) (after_send r w answer)
    unfolding after_send
    Adds-after_send (err e) = Adds-notify_failed e
    Adds-after_send (ok _) = Adds-pure true

    Adds-after_url :
        (wh : Api.Webhook) (resolved : Result Text)
        → Memᴰ wh whs
        → ((url : Text) → resolved ≡ ok url → IsUrl wh url)
        → Adds (Noticed whs ev) (after_url r w ev wh resolved)
    unfolding after_url
    Adds-after_url wh (err e) listed is_url = Adds-notify_failed e
    Adds-after_url wh (ok url) listed is_url =
        Adds-bind _ _ (Adds-attempt _ (Adds-noted_send wh url listed (is_url url refl)))
          Adds-after_send

    Adds-secret_url :
        (ns : Text) (ref : Api.SecretKeyRef) → Adds (Noticed whs ev) (secret_url r w ns ref)
    unfolding secret_url
    Adds-secret_url ns ref = Adds-bind _ _ (search adds_rules) (λ sec.
        Adds-option (entry ref.key sec.entries) _ _
          (λ v. Adds-if (is_empty (trim_space v)) _ _ (Adds-fail _) (Adds-pure _)) (Adds-fail _))

    Adds-resolve_webhook_url :
        (ns : Text) (wh : Api.Webhook) → Adds (Noticed whs ev) (resolve_webhook_url r w ns wh)
    unfolding resolve_webhook_url
    Adds-resolve_webhook_url ns wh =
        Adds-option wh.url_secret_ref _ _ (Adds-secret_url ns)
          (Adds-if (is_empty wh.url) _ _ (Adds-fail _) (Adds-pure _))

    Adds-deliver :
        (ns : Text) (some_whs : List Api.Webhook) (failed : Bool)
        → ((wh : Api.Webhook) → Memᴰ wh some_whs → Memᴰ wh whs)
        → Adds (Noticed whs ev) (deliver r w ns ev some_whs failed)
    unfolding deliver deliver_one
    Adds-deliver ns [] failed among = Adds-pure failed
    Adds-deliver ns (wh ∷ more) failed among =
        Adds-bind _ _
          (Adds-bind_of _ _ (Adds-attempt _ (Adds-resolve_webhook_url ns wh))
            (Yields-attempt _ (Yields-resolve_webhook_url r w ns wh))
            (λ resolved. Adds-after_url wh resolved (among wh (Memᴰ.head refl))))
          (λ served. Adds-deliver ns more (failed || not served) (λ x h. among x (Memᴰ.tail h)))

Adds-notify :
    {S : Type 0} (r : Reconciler S) (w : World S) (dc : DriftCheck)
    → MakesRequests w.http
    → UsesSender r w
    → IsUnicodeEvent (build_event dc (is_resolved r w dc))
    → Adds (Noticed (webhooks_of r w dc) (build_event dc (is_resolved r w dc))) (notify r w dc)
unfolding notify announce update_status
Adds-notify r w dc makes sends unicode = Adds-if (is_silent r w dc) _ _ (Adds-pure tt) (
    Adds-bind _ _
      (Adds-deliver r w makes (webhooks_of r w dc) _ unicode sends dc.namespace (webhooks_of r w dc)
        false (λ wh h. h))
      (λ failed. search adds_rules))

abbrev shown : DriftedResource → Notify.Resource
shown d = record {
  api_version = d.api_version;
  kind = d.kind;
  name = d.name;
  namespace = d.namespace;
  status = d.status;
}

-- An event tells of the status of a check: its counts, its drifted resources in order, and that the
-- drift is resolved exactly if nothing is changed, new or deleted, in which case no resource is told.
pub record Reports (dc : DriftCheck) (ev : Notify.Event) : Type 0 where
  pub name : ev.name ≡ dc.name
  pub namespace : ev.namespace ≡ dc.namespace
  pub changed : ev.summary.changed ≡ dc.status.summary.changed
  pub new : ev.summary.new ≡ dc.status.summary.new
  pub deleted : ev.summary.deleted ≡ dc.status.summary.deleted
  pub unchanged : ev.summary.unchanged ≡ dc.status.summary.unchanged
  pub resolved : (ev.resolved ≡ true) ↔ (
      (dc.status.summary.changed ≡ 0)
      × (dc.status.summary.new ≡ 0)
      × (dc.status.summary.deleted ≡ 0))
  pub none_drifted : ev.resolved ≡ true → ev.drifted ≡ []
  pub drifted : ev.resolved ≡ false → ev.drifted ≡ map shown dc.status.drifted_resources

to_resources-shown : (ds : List DriftedResource) → to_resources ds ≡ map shown ds
unfolding to_resources
to_resources-shown [] = refl
to_resources-shown (d ∷ ds) = ap (λ rs. shown d ∷ rs) (to_resources-shown ds)

build_event-Reports :
    {S : Type 0} (r : Reconciler S) (w : World S) (dc : DriftCheck)
    → Reports dc (build_event dc (is_resolved r w dc))
unfolding build_event is_resolved drift_count
build_event-Reports r w dc = record {
  name = refl;
  namespace = refl;
  changed = refl;
  new = refl;
  deleted = refl;
  unchanged = refl;
  resolved = ground arith;
  none_drifted = λ h. rw h refl;
  drifted = λ h. rw h (to_resources-shown dc.status.drifted_resources);
}

-- With the HTTP sender, as main sets it or by default, every request that a notify makes is a POST of
-- JSON to one of the webhooks of the check, at its inline URL unless a Secret is named, and tells it
-- of one event: a receiver reads it back, or Slack its message. The event has the check's counts and
-- its drifted resources, and is resolved exactly if nothing is changed, new or deleted. The requests
-- before the notify are of this kind too, the status is Unicode, and net/http keeps the method, the
-- URL and the body of a request.
pub notify-Noticed :
    {S : Type 0} (r : Reconciler S) (w : World S) (dc : DriftCheck) (m : Machine S)
    → MakesRequests w.http
    → UsesSender r w
    → IsUnicodeEvent (build_event dc (is_resolved r w dc))
    → All (Noticed (webhooks_of r w dc) (build_event dc (is_resolved r w dc))) m.calls
    → let ev = build_event dc (is_resolved r w dc) in
      Reports dc ev × All (Noticed (webhooks_of r w dc) ev) (notify r w dc m).1.calls
notify-Noticed r w dc m makes sends unicode before =
    (build_event-Reports r w dc, (Adds-notify r w dc makes sends unicode).at m before)
