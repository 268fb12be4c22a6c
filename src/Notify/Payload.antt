-- ===== src/Notify/Payload.antt =====
-- `payload`, `genericPayload` and `slackText` of internal/notify/notify.go
pub mod Unicode
pub mod Receiver
pub mod Message
pub mod Lines
use kube_drift.Common.{List, [], ◌∷◌, ◌++◌, Text, text, is_empty, if◌then◌else◌}
use kube_drift.Errors.{Result, ok, err, errorf}
use kube_drift.Errors.Format.{str, num, sprintf}
use kube_drift.Api.{WebhookType, slack, generic, other}
use kube_drift.Notify.{Resource, Summary, Event}
use kube_drift.Notify.Json.{
  Json, string, number, bool, array, object, Items, nil, cons, Members, end, member, marshal,
}

-- A member with the option `omitempty`, at a string.
abbrev member_unless_empty : Text → Text → Members → Members
member_unless_empty k s rest = if is_empty s then rest else member k (string s) rest

unfoldable pub resource_json : Resource → Json
resource_json r = object (
    member (text "apiVersion") (string r.api_version) (
      member (text "kind") (string r.kind) (
        member (text "name") (string r.name) (
          member_unless_empty (text "namespace") r.namespace
            (member (text "status") (string r.status) end)))))

resource_items : List Resource → Items
unfolding resource_json
resource_items [] = nil
resource_items (r ∷ rs) = cons (resource_json r) (resource_items rs)

unfoldable pub summary_json : Summary → Json
summary_json s = object (
    member (text "changed") (number s.changed) (
      member (text "new") (number s.new) (
        member (text "deleted") (number s.deleted)
          (member (text "unchanged") (number s.unchanged) end))))

drifted_member : List Resource → Members
unfolding resource_items
drifted_member rs =
    if is_empty rs then end else member (text "drifted") (array (resource_items rs)) end

-- The `genericBody` of an event, by its JSON tags.
unfoldable pub generic_payload : Event → Json
unfolding summary_json drifted_member
generic_payload ev = object (
    member (text "driftCheck") (string ev.name) (
      member_unless_empty (text "namespace") ev.namespace (
        member (text "resolved") (bool ev.resolved)
          (member (text "summary") (summary_json ev.summary) (drifted_member ev.drifted)))))

-- A name behind its namespace, if it has one.
unfoldable pub qualified : Text → Text → Text
qualified namespace name = if is_empty namespace then name else namespace ++ text "/" ++ name

unfoldable pub slack_line : Resource → Text
unfolding qualified
slack_line r =
    sprintf (text "\n• [%s] %s %s")
      (str r.status ∷ str r.kind ∷ str (qualified r.namespace r.name) ∷ [])

unfoldable pub slack_lines : List Resource → Text
unfolding slack_line
slack_lines [] = []
slack_lines (r ∷ rs) = slack_line r ++ slack_lines rs

unfoldable pub slack_text : Event → Text
unfolding slack_lines qualified
slack_text ev =
    let id = qualified ev.namespace ev.name in
    if ev.resolved
    then sprintf
        (text
          ":white_check_mark: DriftCheck *%s*: drift resolved — all resources match desired state.")
        (str id ∷ [])
    else sprintf
        (text ":rotating_light: DriftCheck *%s*: drift detected — %d changed, %d new, %d deleted.")
        (str id ∷ num ev.summary.changed ∷ num ev.summary.new ∷ num ev.summary.deleted ∷ [])
      ++ slack_lines ev.drifted

unfoldable pub payload : WebhookType → Event → Result Text
unfolding slack_text generic_payload
payload slack ev = ok (marshal (object (member (text "text") (string (slack_text ev)) end)))
payload generic ev = ok (marshal (generic_payload ev))
payload (other t) ev =
    if is_empty t
    then ok (marshal (generic_payload ev))
    else err (errorf "unknown webhook type %q" (str t ∷ []))
