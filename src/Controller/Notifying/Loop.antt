-- ===== src/Controller/Notifying/Loop.antt =====
-- Views of the calls that see nothing of the loop of `notify`.
use kube_drift.Common.{◌≡◌, ◌∙◌, Bool, true, List, [], ◌∷◌, Text, ◌||◌, not}
use kube_drift.Errors.{Result, ok, err}
use kube_drift.Machine.{Call, sent}
use kube_drift.Machine.Rules.{Keeps, Keeps-bind, Keeps-pure, Keeps-attempt}
use kube_drift.Api
use kube_drift.Notify
use kube_drift.Controller.{World, Reconciler}
use kube_drift.Controller.Notifying.{noted_send, after_send, after_url, deliver_one, deliver}
use kube_drift.Controller.Notifying.Calls.{
  IgnoresNotices, NotifierKeeps, Keeps-notifier_of, Keeps-notify_failed, Keeps-resolve_webhook_url,
}

module _ {S V : Type 0} {view : List Call → V} (ignores : IgnoresNotices view)
    (unsent : (t : Notify.Webhook) (ev : Notify.Event) (answer : Result (Unit {0})) (cs : List Call)
      → view (sent t ev answer ∷ cs) ≡ view cs)
    (r : Reconciler S) (w : World S) (quiet : NotifierKeeps view r.notifier) where
  Keeps-noted_send : (t : Notify.Webhook) (ev : Notify.Event) → Keeps view (noted_send r w t ev)
  unfolding noted_send
  Keeps-noted_send t ev = record {
    at = λ m. unsent t ev _ _ ∙ (Keeps-notifier_of ignores r w quiet t ev).at m;
  }

  Keeps-after_send : (answer : Result (Unit {0})) → Keeps view (after_send r w answer)
  unfolding after_send
  Keeps-after_send (err e) = Keeps-notify_failed ignores r w e
  Keeps-after_send (ok _) = Keeps-pure true

  Keeps-after_url :
      (ev : Notify.Event) (wh : Api.Webhook) (resolved : Result Text)
      → Keeps view (after_url r w ev wh resolved)
  unfolding after_url
  Keeps-after_url ev wh (err e) = Keeps-notify_failed ignores r w e
  Keeps-after_url ev wh (ok url) =
      Keeps-bind _ _ (Keeps-attempt _ (Keeps-noted_send _ ev)) Keeps-after_send

  pub Keeps-deliver :
      (ns : Text) (ev : Notify.Event) (whs : List Api.Webhook) (failed : Bool)
      → Keeps view (deliver r w ns ev whs failed)
  unfolding deliver deliver_one
  Keeps-deliver ns ev [] failed = Keeps-pure failed
  Keeps-deliver ns ev (wh ∷ whs) failed =
      Keeps-bind _ _
        (Keeps-bind _ _ (Keeps-attempt _ (Keeps-resolve_webhook_url ignores r w ns wh))
          (Keeps-after_url ev wh))
        (λ served. Keeps-deliver ns ev whs (failed || not served))
