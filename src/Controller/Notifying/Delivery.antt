-- ===== src/Controller/Notifying/Delivery.antt =====
-- The loop of `notify`: which webhooks it reaches.
use kube_drift.Libraries.{NamespacedName, Secret}
use mathlib.Core.List.{append_assoc, append-nil}
use kube_drift.Common.{
  some, ◌&&◌, IsBlank, trim_space-eq-nil, ◌≡◌, refl, ap, sym, ◌≢◌, ◌⊎◌, inl, inr, ◌∙◌, Bool, true,
  false, none, List, [], ◌∷◌, ◌++◌, Text, ◌||◌, not, is_empty, trim_space, map, Bool-cases,
  Option-cases, arith,
}
use kube_drift.Errors.{is_ok, Result-cases, Error, Result, ok, err}
use kube_drift.Machine.{fail, Machine, pure, effect, continue, ◌>>=◌, sent}
use kube_drift.Machine.Rules.{
  Keeps, Yields, Yields-pure, Yields-fail, Yields-if, Yields-option, Yields-then,
}
use kube_drift.Api
use kube_drift.Api.{DriftCheck}
use kube_drift.Notify
use kube_drift.Controller.{World, Reconciler}
use kube_drift.Controller.ConfigMaps.{entry}
use kube_drift.Controller.Notifying.{
  noted_send, secret_url, resolve_webhook_url, notifier_of, notify_failed, after_send, after_url,
  deliver_one, deliver,
}
use kube_drift.Controller.Notifying.Calls.{
  attempts, attempts-IgnoresNotices, NotifierKeeps, Keeps-notifier_of, Keeps-notify_failed,
  Keeps-resolve_webhook_url,
}

-- The endpoint of a configured webhook: its type, a URL that is not empty, and the inline URL unless
-- a Secret is named.
pub record IsTarget (wh : Api.Webhook) (t : Notify.Webhook) : Type 0 where
  pub type : t.type ≡ wh.type
  pub url : t.url ≢ []
  pub inline : wh.url_secret_ref ≡ none → t.url ≡ wh.url

abbrev pub IsUrl : Api.Webhook → Text → Type 0
IsUrl wh url = (url ≢ []) × (wh.url_secret_ref ≡ none → url ≡ wh.url)

is_empty-eq : (s : Text) → is_empty s ≡ true → s ≡ []
is_empty-eq [] h = refl
is_empty-eq (c ∷ s) h = cc

ne-nil_of_is_empty : (s : Text) → is_empty s ≡ false → s ≢ []
ne-nil_of_is_empty s h e = cc (h, ap is_empty e)

split_failed : (a b c : Bool) → ((a || not b) || not c) ≡ (a || not (b && c))
split_failed a b c = ground arith

or_missed : (a b : Bool) → ((a || not false) || b) ≡ (a || not false)
or_missed a b = ground arith

-- A webhook that was tried, with its answer.
abbrev pub Attempt : Type 0
Attempt = Notify.Webhook × Result (Unit {0})

-- A webhook has no URL: neither an inline one nor a Secret is given, the Secret cannot be read, or it
-- has nothing under the key.
abbrev pub HasNoUrl : {S : Type 0} → World S → Text → Api.Webhook → Type 0
HasNoUrl {S} w ns wh =
    ((wh.url_secret_ref ≡ none) × (wh.url ≡ []))
    ⊎ (ref : Api.SecretKeyRef) × (s : S) × (wh.url_secret_ref ≡ some ref)
      × let got = (w.kube.get_secret (record { name = ref.name; namespace = ns }) s).0 in
        ((e : Error) × (got ≡ err e))
        ⊎ (sec : Secret) × (got ≡ ok sec)
          × ((v : Text) → entry ref.key sec.entries ≡ some v → IsBlank v)

-- Which webhooks were tried, in order, with their answers, and whether all took the event. Only those
-- that have no URL are passed over, and each that is tried is sent the event once.
pub data Reached {S : Type 0} (r : Reconciler S) (w : World S) (ns : Text) (ev : Notify.Event)
    : List Api.Webhook → List Attempt → Bool → Type 0 where
  none_left : Reached r w ns ev [] [] true
  passed_over :
      {wh : Api.Webhook} {whs : List Api.Webhook} {ts : List Attempt} {all : Bool}
      → HasNoUrl w ns wh
      → Reached r w ns ev whs ts all
      → Reached r w ns ev (wh ∷ whs) ts false
  tried :
      {wh : Api.Webhook} {t : Notify.Webhook} {answer : Result (Unit {0})} {whs : List Api.Webhook}
      {ts : List Attempt} {all : Bool} (m : Machine S)
      → IsTarget wh t
      → (notifier_of r w t ev m).0 ≡ answer
      → Reached r w ns ev whs ts all
      → Reached r w ns ev (wh ∷ whs) ((t, answer) ∷ ts) (is_ok answer && all)

module _ {S : Type 0} (r : Reconciler S) (w : World S) where
  pub Yields-resolve_webhook_url :
      (ns : Text) (wh : Api.Webhook) → Yields (IsUrl wh) (resolve_webhook_url r w ns wh)
  unfolding resolve_webhook_url secret_url
  Yields-resolve_webhook_url ns wh = elim (Option-cases wh.url_secret_ref) [
    | inl inline ↦ rw inline (
        Yields-if (is_empty wh.url) _ _ (λ _. Yields-fail _)
          (λ full. Yields-pure _ (ne-nil_of_is_empty _ full, λ _. refl)))
    | inr (ref, named) ↦ rw named (
        Yields-then _ _ (λ sec.
          Yields-option (entry ref.key sec.entries) _ _
            (λ v.
              Yields-if (is_empty (trim_space v)) _ _ (λ _. Yields-fail _)
                (λ full. Yields-pure _ (ne-nil_of_is_empty _ full, λ e. cc)))
            (Yields-fail _)))
  ]

  notify_failed-false : (e : Error) (m : Machine S) → (notify_failed r w e m).0 ≡ ok false
  unfolding notify_failed ◌>>=◌ effect
  notify_failed-false e m = elim (Bool-cases r.has_recorder) [ inl h ↦ rw h | inr h ↦ rw h ]

  resolve_webhook_url-err :
      (ns : Text) (wh : Api.Webhook) (m : Machine S) (e : Error)
      → (resolve_webhook_url r w ns wh m).0 ≡ err e
      → HasNoUrl w ns wh
  unfolding resolve_webhook_url secret_url ◌>>=◌ pure fail
  resolve_webhook_url-err ns wh m e h = elim (Option-cases wh.url_secret_ref) [
    | inl inline ↦ elim (Bool-cases (is_empty wh.url)) [
      | inl empty ↦ inl (inline, is_empty-eq wh.url empty)
      | inr full ↦ cc (rw (resolve_webhook_url, inline, full) at h)
    ]
    | inr (ref, named) ↦
        let at : NamespacedName = record { name = ref.name; namespace = ns } in
        elim (Result-cases (w.kube.get_secret at m.world).0) [
          | inr (x, unread) ↦ inr (ref, m.world, named, inl (x, unread))
          | inl (sec, read) ↦ elim (Option-cases (entry ref.key sec.entries)) [
            | inl missing ↦ inr (ref, m.world, named, inr (sec, read, λ v found. cc))
            | inr (v, found) ↦ elim (Bool-cases (is_empty (trim_space v))) [
              | inl blank ↦ inr (
                ref,
                m.world,
                named,
                inr (
                  sec,
                  read,
                  λ u same.
                      let e : v ≡ u = cc in rw e at ((trim_space-eq-nil v).0 (is_empty-eq _ blank)),
                ),
              )
              | inr full ↦
                  let done : (resolve_webhook_url r w ns wh m).0 ≡ ok (trim_space v) =
                    rw named (rw read (rw (continue, found) (rw full refl))) in
                  cc
            ]
          ]
        ]
  ]

  -- What one round leaves: the webhook has no URL, or it was tried.
  abbrev Round : Text → Notify.Event → Api.Webhook → Machine S → Result Bool × Machine S → Type 0
  Round ns ev wh m (served, m') =
      (HasNoUrl w ns wh × (served ≡ ok false) × (attempts m'.calls ≡ attempts m.calls))
      ⊎ (t : Notify.Webhook) × (answer : Result (Unit {0})) × (m1 : Machine S) × IsTarget wh t
        × ((notifier_of r w t ev m1).0 ≡ answer)
        × (served ≡ ok (is_ok answer))
        × (attempts m'.calls ≡ attempts m.calls ++ (t, ev, answer) ∷ [])

  module _ (quiet : NotifierKeeps attempts r.notifier) where
    notify_failed-attempts : (e : Error) → Keeps attempts (notify_failed r w e)
    notify_failed-attempts e = Keeps-notify_failed attempts-IgnoresNotices r w e

    after_send-Round :
        (ns : Text) (ev : Notify.Event) (wh : Api.Webhook) (t : Notify.Webhook)
        (m m1 m' : Machine S) (answer : Result (Unit {0}))
        → IsTarget wh t
        → (notifier_of r w t ev m1).0 ≡ answer
        → attempts m'.calls ≡ attempts m.calls
        → Round ns ev wh m
            (after_send r w answer (record m' { calls = sent t ev answer ∷ m'.calls }))
    unfolding after_send pure
    after_send-Round ns ev wh t m m1 m' (err e) target answered same =
        let more = ap (λ ats. ats ++ (t, ev, err e) ∷ []) same in
        inr (
          t,
          err e,
          m1,
          target,
          answered,
          notify_failed-false e _,
          (notify_failed-attempts e).at _ ∙ more,
        )
    after_send-Round ns ev wh t m m1 m' (ok tt) target answered same =
        inr (t, ok tt, m1, target, answered, refl, ap (λ ats. ats ++ (t, ev, ok tt) ∷ []) same)

    after_url-Round :
        (ns : Text) (ev : Notify.Event) (wh : Api.Webhook) (m m' : Machine S)
        (resolved : Result Text)
        → ((url : Text) → resolved ≡ ok url → IsUrl wh url)
        → ((e : Error) → resolved ≡ err e → HasNoUrl w ns wh)
        → attempts m'.calls ≡ attempts m.calls
        → Round ns ev wh m (after_url r w ev wh resolved m')
    unfolding after_url noted_send ◌>>=◌
    after_url-Round ns ev wh m m' (err e) url no_url same =
        inl (no_url e refl, notify_failed-false e m', (notify_failed-attempts e).at m' ∙ same)
    after_url-Round ns ev wh m m' (ok url) is_url no_url same =
        let t : Notify.Webhook = record { type = wh.type; url = url } in
        let (full, inline) = is_url url refl in
        let target : IsTarget wh t = record { type = refl; url = full; inline = inline } in
        let sending = (Keeps-notifier_of attempts-IgnoresNotices r w quiet t ev).at m' in
        after_send-Round ns ev wh t m m' (notifier_of r w t ev m').1 _ target refl (sending ∙ same)

    deliver_one-Round :
        (ns : Text) (ev : Notify.Event) (wh : Api.Webhook) (m : Machine S)
        → Round ns ev wh m (deliver_one r w ns ev wh m)
    unfolding deliver_one ◌>>=◌
    deliver_one-Round ns ev wh m =
        after_url-Round ns ev wh m _ _ ((Yields-resolve_webhook_url ns wh).at m)
          (resolve_webhook_url-err ns wh m)
          ((Keeps-resolve_webhook_url attempts-IgnoresNotices r w ns wh).at m)

    -- What the loop leaves.
    abbrev pub Delivered :
        Text → Notify.Event → List Api.Webhook → Bool → Machine S → Result Bool × Machine S → Type 0
    Delivered ns ev whs failed m (served, m') =
        (ts : List Attempt) × (all : Bool) × Reached r w ns ev whs ts all
        × (served ≡ ok (failed || not all))
        × (attempts m'.calls ≡ attempts m.calls ++ map (λ t. (t.0, ev, t.1)) ts)

    next-Delivered :
        (ns : Text) (ev : Notify.Event) (wh : Api.Webhook) (whs : List Api.Webhook) (failed : Bool)
        (m m1 : Machine S) (served : Result Bool)
        → Round ns ev wh m (served, m1)
        → ((f : Bool) → Delivered ns ev whs f m1 (deliver r w ns ev whs f m1))
        → Delivered ns ev
            (wh ∷ whs)
            failed
            m
            (continue served (λ s. deliver r w ns ev whs (failed || not s)) m1)
    next-Delivered ns ev wh whs failed m m1 served round rest = elim round [
      | inl (no_url, missing, same) ↦
          let (ts, all, reached, result, gained) = rest (failed || not false) in
          rw missing (
            ts,
            false,
            passed_over no_url reached,
            result ∙ ap ok (or_missed failed (not all)),
            gained ∙ ap (λ ats. ats ++ map (λ t. (t.0, ev, t.1)) ts) same,
          )
      | inr (t, answer, m2, target, answered, taken, more) ↦
          let (ts, all, reached, result, gained) = rest (failed || not (is_ok answer)) in
          let told = map (λ u. (u.0, ev, u.1)) ts in
          let assoc = append_assoc (attempts m.calls) ((t, ev, answer) ∷ []) told in
          rw taken (
            (t, answer) ∷ ts,
            is_ok answer && all,
            tried m2 target answered reached,
            result ∙ ap ok (split_failed failed (is_ok answer) all),
            gained ∙ ap (λ ats. ats ++ told) more ∙ assoc,
          )
    ]

    -- The loop tries each webhook that has a URL once, in order, also behind one that failed.
    pub deliver-Reached :
        (ns : Text) (ev : Notify.Event) (whs : List Api.Webhook) (failed : Bool) (m : Machine S)
        → Delivered ns ev whs failed m (deliver r w ns ev whs failed m)
    unfolding deliver ◌>>=◌
    deliver-Reached ns ev [] failed m = ([], true, none_left, ground arith, sym (append-nil _))
    deliver-Reached ns ev (wh ∷ whs) failed m =
        let m1 = (deliver_one r w ns ev wh m).1 in
        next-Delivered ns ev wh whs failed m m1 _ (deliver_one-Round ns ev wh m)
          (λ f. deliver-Reached ns ev whs f m1)
