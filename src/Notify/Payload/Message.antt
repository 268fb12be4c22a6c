-- ===== src/Notify/Payload/Message.antt =====
-- What the receivers of all kinds hear: an event, or a message in Slack.
use kube_drift.Common.{
  ◌≡◌, refl, Bool, true, false, some, List, [], ◌∷◌, ◌++◌, Text, text, All, All-append, IsText,
  IsText-literal, if◌then◌else◌,
}
use kube_drift.Errors.{ok}
use kube_drift.Errors.Format.Characters.{IsText-sprintf}
use kube_drift.Api.{WebhookType, slack, generic, other}
use kube_drift.Notify.{Resource, Event}
use kube_drift.Notify.Json.{string, object, end, member, marshal}
use kube_drift.Notify.Json.Reads.{IsUnicode}
use kube_drift.Notify.Payload.{
  qualified, slack_line, slack_lines, slack_text, generic_payload, payload,
}
use kube_drift.Notify.Payload.Unicode.{
  IsUnicodeResource, IsUnicodeEvent, with_member, IsUnicode-object, IsUnicode-string,
  AllMembers-end,
}
use kube_drift.Notify.Payload.Receiver.{received, received-generic_payload, said, said-marshal}

IsText-qualified : (ns name : Text) → IsText ns → IsText name → IsText (qualified ns name)
unfolding qualified
IsText-qualified [] name hs hn = hn
IsText-qualified (c ∷ ns) name hs hn =
    All-append _ ((c ∷ ns) ++ text "/") name
      (All-append _ (c ∷ ns) (text "/") hs (IsText-literal (text "/") refl)) hn

IsText-slack_lines : (rs : List Resource) → All IsUnicodeResource rs → IsText (slack_lines rs)
unfolding slack_lines slack_line
IsText-slack_lines [] h = tt
IsText-slack_lines (r ∷ rs) ((hv, hk, hn, hs, ht), more) =
    All-append _ (slack_line r) (slack_lines rs)
      (IsText-sprintf _ _ refl (ht, (hk, (IsText-qualified r.namespace r.name hs hn, tt))))
      (IsText-slack_lines rs more)

IsText-if : (b : Bool) (s t : Text) → IsText s → IsText t → IsText (if b then s else t)
IsText-if true s t hs ht = hs
IsText-if false s t hs ht = ht

IsText-slack_text : (ev : Event) → IsUnicodeEvent ev → IsText (slack_text ev)
unfolding slack_text
IsText-slack_text ev (hn, hs, hd) =
    let id = IsText-qualified ev.namespace ev.name hs hn in
    IsText-if ev.resolved _ _ (IsText-sprintf _ _ refl (id, tt)) (
      All-append _ _ (slack_lines ev.drifted) (IsText-sprintf _ _ refl (id, (tt, (tt, (tt, tt)))))
        (IsText-slack_lines ev.drifted hd))

-- A body by which a receiver of a kind hears an event.
abbrev pub Tells : WebhookType → Event → Text → Type 0
Tells slack ev body = said body ≡ some (slack_text ev)
Tells generic ev body = received body ≡ some ev
Tells (other []) ev body = received body ≡ some ev
Tells (other (c ∷ t)) ev body = ⊥

IsUnicode-message :
    (ev : Event)
    → IsUnicodeEvent ev
    → IsUnicode (object (member (text "text") (string (slack_text ev)) end))
IsUnicode-message ev unicode = IsUnicode-object _ (
    with_member (text "text") _ _ refl (IsUnicode-string _ (IsText-slack_text ev unicode))
      AllMembers-end)

-- The receivers of the body for an event hear it: one of a generic webhook, or of one without a type,
-- reads back the event with its resources in order and its counts, and Slack its message; there is no
-- body for another type. The event's texts are Unicode.
pub payload-Tells :
    (type : WebhookType) (ev : Event) (body : Text)
    → IsUnicodeEvent ev
    → payload type ev ≡ ok body
    → Tells type ev body
unfolding payload
payload-Tells slack ev body unicode h =
    let same : body ≡ marshal (object (member (text "text") (string (slack_text ev)) end)) = cc in
    rw same (said-marshal (slack_text ev) (IsUnicode-message ev unicode))
payload-Tells generic ev body unicode h =
    let same : body ≡ marshal (generic_payload ev) = cc in
    rw same (received-generic_payload ev unicode)
payload-Tells (other []) ev body unicode h =
    let same : body ≡ marshal (generic_payload ev) = cc in
    rw same (received-generic_payload ev unicode)
payload-Tells (other (c ∷ t)) ev body unicode h = cc
