-- ===== src/Notify/Payload/Lines.antt =====
-- The lines of a message in Slack.
use mathlib.Core.Path.{subst}
use mathlib.Core.List.{append-nil}
use kube_drift.Common.{
  IsOneLine, one_line, IsOneLine-literal, lines, lines-line, lines-append, ◌≡◌, ◌≢◌, refl, ap, ◌∙◌,
  Bool, true, false, some, List, [], ◌∷◌, ◌++◌, map, Text, text, All, All-append, if◌then◌else◌,
}
use kube_drift.Errors.{ok}
use kube_drift.Errors.Format.{Arg, str, num, decimal, sprintf}
use kube_drift.Errors.Format.Characters.{AllArg, All-sprintf, OneLine-IsLasting}
use kube_drift.Api.{slack}
use kube_drift.Notify.{Resource, Summary, Event}
use kube_drift.Notify.Payload.{qualified, slack_line, slack_lines, slack_text, payload}
use kube_drift.Notify.Payload.Unicode.{IsUnicodeEvent}
use kube_drift.Notify.Payload.Receiver.{said}
use kube_drift.Notify.Payload.Message.{payload-Tells}

-- What a message shows of a resource is on one line.
abbrev pub IsOneLineResource : Resource → Type 0
IsOneLineResource r =
    IsOneLine r.kind × IsOneLine r.name × IsOneLine r.namespace × IsOneLine r.status

abbrev pub IsOneLineEvent : Event → Type 0
IsOneLineEvent ev = IsOneLine ev.name × IsOneLine ev.namespace × All IsOneLineResource ev.drifted

-- What a message shows of a resource.
abbrev pub entry : Resource → Text
entry r =
    text "• ["
    ++ (r.status ++ (text "] " ++ (r.kind ++ (text " " ++ qualified r.namespace r.name))))

-- The headline of an event, by the name of its check.
abbrev settled : Text → Text
settled id =
    text ":white_check_mark: DriftCheck *"
    ++ (id ++ text "*: drift resolved — all resources match desired state.")

abbrev alarm : Text → Summary → Text
alarm id s =
    text ":rotating_light: DriftCheck *"
    ++ (id
        ++ (text "*: drift detected — "
            ++ (decimal s.changed
                ++ (text " changed, "
                    ++ (decimal s.new
                        ++ (text " new, " ++ (decimal s.deleted ++ text " deleted.")))))))

abbrev pub headline : Event → Text
headline ev =
    let id = qualified ev.namespace ev.name in
    if ev.resolved then settled id else alarm id ev.summary

abbrev pub entries : Event → List Text
entries ev = if ev.resolved then [] else map entry ev.drifted

slack_line-entry : (r : Resource) → slack_line r ≡ 10 ∷ entry r
unfolding slack_line sprintf
slack_line-entry r = rw (append-nil (qualified r.namespace r.name)) refl

IsOneLine-sprintf :
    (s : Text) (args : List Arg)
    → one_line s ≡ true
    → All (AllArg (λ c. c ≢ 10)) args
    → IsOneLine (sprintf s args)
IsOneLine-sprintf s args h ha = All-sprintf OneLine-IsLasting s args (IsOneLine-literal s h) ha

IsOneLine-qualified :
    (ns name : Text) → IsOneLine ns → IsOneLine name → IsOneLine (qualified ns name)
unfolding qualified
IsOneLine-qualified [] name hs hn = hn
IsOneLine-qualified (c ∷ ns) name hs hn =
    All-append _ ((c ∷ ns) ++ text "/") name
      (All-append _ (c ∷ ns) (text "/") hs (IsOneLine-literal (text "/") refl)) hn

abbrev entry_format : Text
entry_format = text "• [%s] %s %s"

entry-sprintf :
    (r : Resource)
    → sprintf entry_format (str r.status ∷ str r.kind ∷ str (qualified r.namespace r.name) ∷ [])
      ≡ entry r
unfolding sprintf
entry-sprintf r = rw (append-nil (qualified r.namespace r.name)) refl

IsOneLine-entry : (r : Resource) → IsOneLineResource r → IsOneLine (entry r)
IsOneLine-entry r (hk, hn, hs, ht) = subst IsOneLine (entry-sprintf r) (
    IsOneLine-sprintf entry_format _ refl
      (ht, (hk, (IsOneLine-qualified r.namespace r.name hs hn, tt))))

lines-slack_lines :
    (h : Text) (rs : List Resource)
    → IsOneLine h
    → All IsOneLineResource rs
    → lines (h ++ slack_lines rs) ≡ h ∷ map entry rs
unfolding slack_lines
lines-slack_lines h [] hh hs = rw (append-nil h) (lines-line h hh)
lines-slack_lines h (r ∷ rs) hh (hr, hs) = rw (slack_line-entry r) (
    lines-append h (entry r ++ slack_lines rs) hh
    ∙ ap (λ ls. h ∷ ls) (lines-slack_lines (entry r) rs (IsOneLine-entry r hr) hs))

abbrev settled_format : Text
settled_format =
    text ":white_check_mark: DriftCheck *%s*: drift resolved — all resources match desired state."

abbrev alarm_format : Text
alarm_format =
    text ":rotating_light: DriftCheck *%s*: drift detected — %d changed, %d new, %d deleted."

lines-settled :
    (id : Text) → IsOneLine id → lines (sprintf settled_format (str id ∷ [])) ≡ settled id ∷ []
unfolding sprintf
lines-settled id h = lines-line _ (IsOneLine-sprintf settled_format (str id ∷ []) refl (h, tt))

lines-alarm :
    (id : Text) (s : Summary) (rs : List Resource)
    → IsOneLine id
    → All IsOneLineResource rs
    → lines (
        sprintf alarm_format (str id ∷ num s.changed ∷ num s.new ∷ num s.deleted ∷ [])
        ++ slack_lines rs)
      ≡ alarm id s ∷ map entry rs
unfolding sprintf
lines-alarm id s rs h hs =
    lines-slack_lines (alarm id s) rs
      (IsOneLine-sprintf alarm_format (str id ∷ num s.changed ∷ num s.new ∷ num s.deleted ∷ []) refl
        (h, (tt, (tt, (tt, tt)))))
      hs

lines-if :
    (b : Bool) (s t g h : Text) (ls : List Text)
    → lines s ≡ g ∷ []
    → lines t ≡ h ∷ ls
    → lines (if b then s else t) ≡ (if b then g else h) ∷ (if b then [] else ls)
lines-if true s t g h ls hs ht = hs
lines-if false s t g h ls hs ht = ht

lines-slack_text :
    (ev : Event) → IsOneLineEvent ev → lines (slack_text ev) ≡ headline ev ∷ entries ev
unfolding slack_text
lines-slack_text ev (hn, hs, hd) =
    let id = IsOneLine-qualified ev.namespace ev.name hs hn in
    lines-if ev.resolved _ _ _ _ _ (lines-settled _ id) (lines-alarm _ ev.summary ev.drifted id hd)

-- Slack reads a message from the body that it gets: the headline of the event, with the three counts
-- if there is drift, and then a line for each drifted resource, in order. The event's texts are
-- Unicode, and those that the message shows are of one line.
pub lines-payload :
    (ev : Event) (body : Text)
    → IsUnicodeEvent ev
    → IsOneLineEvent ev
    → payload slack ev ≡ ok body
    → (message : Text) × (said body ≡ some message) × (lines message ≡ headline ev ∷ entries ev)
lines-payload ev body unicode single sent =
    (slack_text ev, payload-Tells slack ev body unicode sent, lines-slack_text ev single)
