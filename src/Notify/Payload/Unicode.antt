-- ===== src/Notify/Payload/Unicode.antt =====
-- The events whose texts are Unicode, and their payload.
use kube_drift.Common.{
  IsText, is_text, IsText-literal, ◌≡◌, refl, Bool, true, List, [], ◌∷◌, Text, text, All, arith,
}
use kube_drift.Notify.{Resource, Summary, Event}
use kube_drift.Notify.Json.{Json, string, bool, array, object, Items, Members, end, member}
use kube_drift.Notify.Json.Reads.{IsUnicode, AllItems, AllMembers}
use kube_drift.Notify.Payload.{
  member_unless_empty, resource_json, resource_items, summary_json, drifted_member, generic_payload,
}

-- The texts of an event are Unicode.
abbrev pub IsUnicodeResource : Resource → Type 0
IsUnicodeResource r =
    IsText r.api_version × IsText r.kind × IsText r.name × IsText r.namespace × IsText r.status

abbrev pub IsUnicodeEvent : Event → Type 0
IsUnicodeEvent ev = IsText ev.name × IsText ev.namespace × All IsUnicodeResource ev.drifted

pub with_member :
    (k : Text) (j : Json) (ms : Members)
    → is_text k ≡ true
    → IsUnicode j
    → AllMembers ms
    → AllMembers (member k j ms)
unfolding AllMembers
with_member k j ms literal h rest = (IsText-literal k literal, h, rest)

with_optional :
    (k s : Text) (ms : Members)
    → is_text k ≡ true
    → IsText s
    → AllMembers ms
    → AllMembers (member_unless_empty k s ms)
unfolding IsUnicode
with_optional k [] ms literal h rest = rest
with_optional k (c ∷ s) ms literal h rest = with_member k (string (c ∷ s)) ms literal h rest

pub IsUnicode-object : (ms : Members) → AllMembers ms → IsUnicode (object ms)
unfolding IsUnicode
IsUnicode-object ms h = h

IsUnicode-array : (items : Items) → AllItems items → IsUnicode (array items)
unfolding IsUnicode
IsUnicode-array items h = h

pub IsUnicode-string : (s : Text) → IsText s → IsUnicode (string s)
unfolding IsUnicode
IsUnicode-string s h = h

IsUnicode-bool : (b : Bool) → IsUnicode (bool b)
unfolding IsUnicode
IsUnicode-bool b = tt

pub AllMembers-end : AllMembers end
unfolding AllMembers
AllMembers-end = tt

IsUnicode-resource : (r : Resource) → IsUnicodeResource r → IsUnicode (resource_json r)
unfolding resource_json
IsUnicode-resource r (hv, hk, hn, hs, ht) = IsUnicode-object _ (
    with_member (text "apiVersion") _ _ refl (IsUnicode-string _ hv) (
      with_member (text "kind") _ _ refl (IsUnicode-string _ hk) (
        with_member (text "name") _ _ refl (IsUnicode-string _ hn) (
          with_optional (text "namespace") _ _ refl hs
            (with_member (text "status") _ _ refl (IsUnicode-string _ ht) AllMembers-end)))))

AllItems-resources : (rs : List Resource) → All IsUnicodeResource rs → AllItems (resource_items rs)
unfolding resource_items AllItems
AllItems-resources [] h = tt
AllItems-resources (r ∷ rs) h = (IsUnicode-resource r h.0, AllItems-resources rs h.1)

IsUnicode-summary : (s : Summary) → IsUnicode (summary_json s)
unfolding summary_json IsUnicode
IsUnicode-summary s = omega arith

AllMembers-drifted :
    (rs : List Resource) → All IsUnicodeResource rs → AllMembers (drifted_member rs)
unfolding drifted_member
AllMembers-drifted [] h = AllMembers-end
AllMembers-drifted (r ∷ rs) h =
    with_member (text "drifted") _ end refl
      (IsUnicode-array (resource_items (r ∷ rs)) (AllItems-resources (r ∷ rs) h)) AllMembers-end

pub IsUnicode-payload : (ev : Event) → IsUnicodeEvent ev → IsUnicode (generic_payload ev)
unfolding generic_payload
IsUnicode-payload ev (hn, hs, hd) = IsUnicode-object _ (
    with_member (text "driftCheck") _ _ refl (IsUnicode-string _ hn) (
      with_optional (text "namespace") _ _ refl hs (
        with_member (text "resolved") _ _ refl (IsUnicode-bool _) (
          with_member (text "summary") _ _ refl (IsUnicode-summary ev.summary)
            (AllMembers-drifted ev.drifted hd)))))
