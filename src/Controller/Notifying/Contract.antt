-- ===== src/Controller/Notifying/Contract.antt =====
-- The contract of `notify`, on sets of resources: the rounds that it allows.
use mathlib.Core.List.Perm
use mathlib.Core.Quot
use mathlib.Core.Quot.{Quot}
use kube_drift.Common.{
  ◌≡◌, refl, ap, ◌≢◌, Bool, true, false, List, [], ◌∷◌, Text, Perm, is_empty, All,
}
use kube_drift.Api
use kube_drift.Api.{DriftedResource}
use kube_drift.Libraries.{Crypto}
use kube_drift.Controller.Fingerprint.{drift_hash}
use kube_drift.Controller.Fingerprint.Keys.{IsClean}
use kube_drift.Controller.Fingerprint.Dedup.{drift_hash-perm}
use kube_drift.Controller.Notifying.Delivery.{Attempt}

-- Drifted resources up to order.
abbrev pub Bag : Type 0
Bag = Quot {α = List DriftedResource} Perm

abbrev pub bag : List DriftedResource → Bag
bag = Quot.mk

-- The set that was heard last.
pub data Heard : Type 0 where
  never : Heard
  heard : Bag → Heard

-- A round with some webhooks, of which some attempts reach all or not, and the set that is drifted
-- now: the attempts, and the set that was heard last.
pub data Round (Reach : List Attempt → Bool → Type 0) (whs : List Api.Webhook) (now : Bag)
    : Heard → List Attempt → Heard → Type 0 where
  no_webhooks : {s : Heard} → whs ≡ [] → Round Reach whs now s [] s
  repeated : {s : Heard} → s ≡ heard now → Round Reach whs now s [] s
  clean : {s : Heard} → s ≡ never → now ≡ bag [] → Round Reach whs now s [] s
  told :
      {s : Heard} {ts : List Attempt}
      → s ≢ heard now
      → (s ≡ never → now ≢ bag [])
      → Reach ts true
      → Round Reach whs now s ts (heard now)
  missed :
      {s : Heard} {ts : List Attempt}
      → s ≢ heard now
      → (s ≡ never → now ≢ bag [])
      → Reach ts false
      → Round Reach whs now s ts s

-- What a stored fingerprint stands for.
pub data Represents (crypto : Crypto) (hash : Text) : Heard → Type 0 where
  none_heard : hash ≡ [] → Represents crypto hash never
  set_heard :
      (set : List DriftedResource)
      → All IsClean set
      → hash ≡ drift_hash crypto set
      → Represents crypto hash (heard (bag set))

bag_hash : Crypto → Bag → Text
bag_hash crypto = Quot.lift (hlevel) (drift_hash crypto) (drift_hash-perm crypto)

pub drift_hash-bag :
    (crypto : Crypto) (xs ys : List DriftedResource)
    → bag xs ≡ bag ys
    → drift_hash crypto xs ≡ drift_hash crypto ys
unfolding bag_hash
drift_hash-bag crypto xs ys e = ap (bag_hash crypto) e

is_empty-perm : (xs ys : List DriftedResource) → Perm xs ys → is_empty xs ≡ is_empty ys
is_empty-perm [] [] p = refl
is_empty-perm [] (y ∷ ys) p = cc (Perm.nil-eq p)
is_empty-perm (x ∷ xs) [] p = cc (Perm.eq-nil p)
is_empty-perm (x ∷ xs) (y ∷ ys) p = refl

is_empty_bag : Bag → Bool
is_empty_bag = Quot.lift (hlevel) is_empty is_empty-perm

pub is_empty-bag : (xs : List DriftedResource) → bag xs ≡ bag [] → is_empty xs ≡ true
unfolding is_empty_bag
is_empty-bag xs e = ap is_empty_bag e
