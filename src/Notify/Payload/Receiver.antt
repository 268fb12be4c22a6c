-- ===== src/Notify/Payload/Receiver.antt =====
-- A receiver of the generic payload, which reads the event back.
use kube_drift.Common.{
  ℕ, ◌≡◌, refl, ap, Bool, false, Option, none, some, List, [], ◌∷◌, Text, text, ◌==◌, if◌then◌else◌,
}
use kube_drift.Notify.{Resource, Summary, Event}
use kube_drift.Notify.Json.{
  Json, string, number, bool, array, object, Items, nil, cons, Members, end, member, marshal,
}
use kube_drift.Notify.Payload.Unicode.{IsUnicodeEvent, IsUnicode-payload}
use kube_drift.Notify.Json.Reads.{IsUnicode}
use kube_drift.Notify.Json.RoundTrip.{parse, parse-marshal}
use kube_drift.Notify.Payload.{
  resource_json, resource_items, summary_json, drifted_member, generic_payload,
}

-- The value of the first member of a name.
find : Text → Members → Option Json
find k end = none
find k (member k' j ms) = let later = find k ms in if k == k' then some j else later

-- As for a field of a Go struct: a member that is missing has the zero value.
abbrev text_of : Option Json → Text
text_of (some (string s)) = s
text_of _ = []

abbrev count_of : Option Json → ℕ
count_of (some (number n)) = n
count_of _ = 0

abbrev flag_of : Option Json → Bool
flag_of (some (bool b)) = b
flag_of _ = false

abbrev members_of : Option Json → Members
members_of (some (object ms)) = ms
members_of _ = end

abbrev items_of : Option Json → Items
items_of (some (array items)) = items
items_of _ = nil

resource_of : Members → Resource
unfolding find
resource_of ms = record {
  api_version = text_of (find (text "apiVersion") ms);
  kind = text_of (find (text "kind") ms);
  name = text_of (find (text "name") ms);
  namespace = text_of (find (text "namespace") ms);
  status = text_of (find (text "status") ms);
}

resources_of : Items → List Resource
unfolding resource_of
resources_of nil = []
resources_of (cons j items) = resource_of (members_of (some j)) ∷ resources_of items

summary_of : Members → Summary
unfolding find
summary_of ms = record {
  changed = count_of (find (text "changed") ms);
  new = count_of (find (text "new") ms);
  deleted = count_of (find (text "deleted") ms);
  unchanged = count_of (find (text "unchanged") ms);
}

unfoldable pub event_of : Json → Event
unfolding find resources_of summary_of
event_of j =
    let ms = members_of (some j) in
    record {
      name = text_of (find (text "driftCheck") ms);
      namespace = text_of (find (text "namespace") ms);
      summary = summary_of (members_of (find (text "summary") ms));
      drifted = resources_of (items_of (find (text "drifted") ms));
      resolved = flag_of (find (text "resolved") ms);
    }

resource_of-json :
    (v k n s t : Text)
    → let r : Resource = record {
      api_version = v;
      kind = k;
      name = n;
      namespace = s;
      status = t;
    } in
      resource_of (members_of (some (resource_json r))) ≡ r
unfolding resource_of resource_json ◌==◌
resource_of-json v k n [] t = refl
resource_of-json v k n (c ∷ s) t = refl

resources_of-items : (rs : List Resource) → resources_of (resource_items rs) ≡ rs
unfolding resources_of resource_items resource_json
resources_of-items [] = refl
resources_of-items (r ∷ rs) =
    let first = resource_of-json r.api_version r.kind r.name r.namespace r.status in
    rw first (ap (λ more. r ∷ more) (resources_of-items rs))

event_of-payload :
    (name ns : Text) (s : Summary) (ds : List Resource) (b : Bool)
    → let ev : Event = record {
      name = name;
      namespace = ns;
      summary = s;
      drifted = ds;
      resolved = b;
    } in
      event_of (generic_payload ev) ≡ ev
unfolding event_of generic_payload drifted_member find summary_of summary_json ◌==◌
event_of-payload name [] s [] b = refl
event_of-payload name (c ∷ ns) s [] b = refl
event_of-payload name [] s (d ∷ ds) b = rw resources_of-items refl
event_of-payload name (c ∷ ns) s (d ∷ ds) b = rw resources_of-items refl

event_of-generic_payload : (ev : Event) → event_of (generic_payload ev) ≡ ev
event_of-generic_payload ev =
    event_of-payload ev.name ev.namespace ev.summary ev.drifted ev.resolved

-- What a receiver of a body makes of it.
unfoldable pub received : Text → Option Event
unfolding event_of
received body = elim (parse body) [ some j ↦ some (event_of j) | none ↦ none ]

pub received-generic_payload :
    (ev : Event) → IsUnicodeEvent ev → received (marshal (generic_payload ev)) ≡ some ev
unfolding received
received-generic_payload ev unicode =
    rw (received, parse-marshal (generic_payload ev) (IsUnicode-payload ev unicode))
      (ap some (event_of-generic_payload ev))

-- What Slack makes of a body: the message under the key `text`.
unfoldable pub said : Text → Option Text
unfolding find
said body = elim (parse body) [
  | some j ↦ some (text_of (find (text "text") (members_of (some j))))
  | none ↦ none
]

pub said-marshal :
    (message : Text)
    → IsUnicode (object (member (text "text") (string message) end))
    → said (marshal (object (member (text "text") (string message) end))) ≡ some message
unfolding said find ◌==◌
said-marshal message unicode =
    rw (said, parse-marshal (object (member (text "text") (string message) end)) unicode) refl
