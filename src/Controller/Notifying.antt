-- ===== src/Controller/Notifying.antt =====
-- `notify`, `resolveWebhookURL` and `event` of internal/controller/notify.go
pub mod Silence
pub mod Calls
pub mod Loop
pub mod Delivery
pub mod Told
pub mod Contract
pub mod Refinement
pub mod Retries
pub mod Heard
use kube_drift.Common.{
  ℕ, Bool, true, false, Option, none, some, List, [], ◌∷◌, Text, text, ◌==◌, nat_eq, is_empty,
  trim_space, ◌&&◌, ◌||◌, if◌then◌else◌, not,
}
use kube_drift.Errors.{Error, Result, ok, err, errorf, message}
use kube_drift.Errors.Format.{str}
use kube_drift.Machine.{
  Machine, Exec, pure, fail, lift, ask, act, attempt, wrapped, effect, ◌>>=◌, ◌>>◌, updated_status,
  sent, emitted,
}
use kube_drift.Libraries.{Kube, NamespacedName}
use kube_drift.Api
use kube_drift.Api.{DriftCheck}
use kube_drift.Notify
use kube_drift.Notify.Sender.{send, new_sender}
use kube_drift.Controller.{World, Reconciler, Notifier}
use kube_drift.Controller.ConfigMaps.{entry}
use kube_drift.Controller.Fingerprint.{drift_hash}
use kube_drift.Controller.Summary.{drift_count, build_event}

module _ {S : Type 0} (r : Reconciler S) (w : World S) where
  -- `r.Status().Update(ctx, dc)`: the object that dc is afterwards.
  unfoldable pub update_status : DriftCheck → Exec S DriftCheck
  update_status dc = act (updated_status dc) (w.kube.update_status dc)

  unfoldable pub event : Text → Text → Text → Exec S (Unit {0})
  event type reason message =
      if r.has_recorder
      then effect (emitted type reason message) (w.kube.emit_event type reason message)
      else pure tt

  -- The branch of a `URLSecretRef`.
  unfoldable pub secret_url : Text → Api.SecretKeyRef → Exec S Text
  unfolding entry
  secret_url ns ref = do
    let at : NamespacedName = record { name = ref.name; namespace = ns }
    sec ← wrapped "get Secret %s/%s: %w" (str ns ∷ str ref.name ∷ []) (ask (w.kube.get_secret at))
    elim (entry ref.key sec.entries) [
      | none ↦
          fail
            (errorf "key %q not found in Secret %s/%s" (str ref.key ∷ str ns ∷ str ref.name ∷ []))
      | some v ↦
          if is_empty (trim_space v)
          then fail
              (errorf "secret %s/%s key %q is empty" (str ns ∷ str ref.name ∷ str ref.key ∷ []))
          else pure (trim_space v)
    ]

  unfoldable pub resolve_webhook_url : Text → Api.Webhook → Exec S Text
  unfolding secret_url
  resolve_webhook_url ns wh = elim wh.url_secret_ref [
    | some ref ↦ secret_url ns ref
    | none ↦
        if is_empty wh.url
        then fail (errorf "webhook has neither url nor urlSecretRef" [])
        else pure wh.url
  ]

  -- The notifier that is wired, or an HTTP sender.
  unfoldable pub notifier_of : Notifier S
  notifier_of = elim r.notifier [ some n ↦ n | none ↦ send w.http new_sender ]

  -- `notifier.Send`, noted with its outcome.
  unfoldable pub noted_send : Notify.Webhook → Notify.Event → Exec S (Unit {0})
  unfolding notifier_of
  noted_send target ev m =
      let (result, m') = notifier_of target ev m in
      (result, record m' { calls = sent target ev result ∷ m'.calls })

  unfoldable pub notify_failed : Error → Exec S Bool
  unfolding event
  notify_failed e = do event (text "Warning") (text "NotifyFailed") (message e); pure false

  -- What follows `notifier.Send` in a round of the loop.
  unfoldable pub after_send : Result (Unit {0}) → Exec S Bool
  unfolding notify_failed
  after_send (err e) = notify_failed e
  after_send (ok _) = pure true

  -- What follows `resolveWebhookURL`.
  unfoldable pub after_url : Notify.Event → Api.Webhook → Result Text → Exec S Bool
  unfolding noted_send after_send
  after_url ev wh (err e) = notify_failed e
  after_url ev wh (ok url) = do
    answer ← attempt (noted_send (record { type = wh.type; url = url }) ev)
    after_send answer

  -- One round of the loop: whether the webhook was served.
  unfoldable pub deliver_one : Text → Notify.Event → Api.Webhook → Exec S Bool
  unfolding resolve_webhook_url after_url
  deliver_one ns ev wh = do resolved ← attempt (resolve_webhook_url ns wh); after_url ev wh resolved

  -- The loop, with the flag `failed`.
  unfoldable pub deliver : Text → Notify.Event → List Api.Webhook → Bool → Exec S Bool
  unfolding deliver_one
  deliver ns ev [] failed = pure failed
  deliver ns ev (wh ∷ whs) failed = do
    served ← deliver_one ns ev wh
    deliver ns ev whs (failed || not served)

  -- The webhooks of a DriftCheck: none if there is no `notify` block.
  unfoldable pub webhooks_of : DriftCheck → List Api.Webhook
  webhooks_of dc = elim dc.spec.notify [ none ↦ [] | some n ↦ n.webhooks ]

  -- What follows the guards.
  unfoldable pub announce : DriftCheck → Text → Bool → Exec S (Unit {0})
  unfolding deliver webhooks_of update_status
  announce dc hash resolved = do
    failed ← deliver dc.namespace (build_event dc resolved) (webhooks_of dc) false
    if failed then pure tt else do
      let status = record dc.status { last_notified_hash = hash }
      update_status (record dc { status = status })
      pure tt

  unfoldable pub hash_of : DriftCheck → Text
  hash_of dc = drift_hash w.crypto dc.status.drifted_resources

  unfoldable pub is_resolved : DriftCheck → Bool
  is_resolved dc = nat_eq (drift_count dc.status.summary) 0

  -- Whether `notify` returns before it builds an event.
  unfoldable pub is_silent : DriftCheck → Bool
  unfolding webhooks_of hash_of is_resolved
  is_silent dc =
      is_empty (webhooks_of dc)
      || hash_of dc == dc.status.last_notified_hash
      || (is_resolved dc && is_empty dc.status.last_notified_hash)

  unfoldable pub notify : DriftCheck → Exec S (Unit {0})
  unfolding is_silent announce
  notify dc = if is_silent dc then pure tt else announce dc (hash_of dc) (is_resolved dc)
