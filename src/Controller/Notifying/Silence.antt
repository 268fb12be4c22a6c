-- ===== src/Controller/Notifying/Silence.antt =====
-- The guards of `notify`: when it stays silent.
use kube_drift.Common.{
  ◌≡◌, refl, sym, ◌⊎◌, inl, inr, ◌∙◌, Bool, true, false, Option, none, some, List, [], ◌∷◌, Perm,
  All, ◌==◌, ◌||◌, ◌&&◌, eq_of_==, eq_refl, is_empty, Bool-cases, arith,
}
use kube_drift.Errors.{ok}
use kube_drift.Machine.{Machine, pure}
use kube_drift.Api.{DriftCheck, DriftedResource}
use kube_drift.Controller.{World, Reconciler}
use kube_drift.Controller.Fingerprint.{drift_hash}
use kube_drift.Controller.Fingerprint.Keys.{IsClean}
use kube_drift.Controller.Fingerprint.Dedup.{
  IsDigest, Collision, drift_hash-perm, perm_of_drift_hash, drift_hash-ne-nil,
}
use kube_drift.Controller.Notifying.{webhooks_of, hash_of, is_resolved, is_silent, notify}

is_empty-eq : {A : Type 0} (xs : List A) → is_empty xs ≡ true → xs ≡ []
is_empty-eq [] h = refl
is_empty-eq (x ∷ xs) h = cc

third_test : (a b c d : Bool) → (a || b || (c && d)) ≡ true → a ≡ false → b ≡ false → d ≡ true
third_test a b c d h ha hb = ground arith

first_reason :
    {A : Type 0} (xs : List A) (b : Bool) → (is_empty xs || b) ≡ true → (xs ≡ []) ⊎ (b ≡ true)
first_reason [] b h = inl refl
first_reason (x ∷ xs) b h = inr h

-- A silent `notify` calls nothing and fails never.
pub notify_silent :
    {S : Type 0} (r : Reconciler S) (w : World S) (dc : DriftCheck)
    → is_silent r w dc ≡ true
    → (m : Machine S) → notify r w dc m ≡ (ok tt, m)
unfolding notify pure
notify_silent r w dc h m = rw h

silent_of_same :
    {S : Type 0} (r : Reconciler S) (w : World S) (dc : DriftCheck)
    → (hash_of r w dc == dc.status.last_notified_hash) ≡ true
    → is_silent r w dc ≡ true
unfolding is_silent
silent_of_same r w dc h = ground arith

module _ {S : Type 0} (r : Reconciler S) (w : World S) (dc : DriftCheck)
    (told : List DriftedResource)
    (last : dc.status.last_notified_hash ≡ drift_hash w.crypto told) where
  -- If the last fingerprint is that of a set of resources, a status that lists the same set in any
  -- order is not notified: nothing is called.
  pub notify_same_set :
      Perm told dc.status.drifted_resources → (m : Machine S) → notify r w dc m ≡ (ok tt, m)
  unfolding hash_of
  notify_same_set p m =
      let same = last ∙ drift_hash-perm w.crypto told dc.status.drifted_resources p in
      notify_silent r w dc (silent_of_same r w dc (rw same (eq_refl _))) m

  reason_of_told :
      IsDigest w.crypto
      → All IsClean told
      → All IsClean dc.status.drifted_resources
      → is_silent r w dc ≡ true
      → (webhooks_of r w dc ≡ []) ⊎ Perm told dc.status.drifted_resources ⊎ Collision w.crypto
  unfolding is_silent
  reason_of_told digest clean_told clean h =
      let now = dc.status.drifted_resources in
      elim (Bool-cases (is_empty (webhooks_of r w dc))) [
        | inl none_to_tell ↦ inl (is_empty-eq _ none_to_tell)
        | inr webhooks ↦
            elim (Bool-cases (drift_hash w.crypto now == dc.status.last_notified_hash)) [
              | inl same ↦ inr (
                  perm_of_drift_hash w.crypto told now digest clean_told clean
                    (sym last ∙ sym (eq_of_== _ _ same)))
              | inr differs ↦ absurd (
                  drift_hash-ne-nil w.crypto told digest
                    (sym last ∙ is_empty-eq _ (third_test _ _ _ _ h webhooks differs)))
            ]
      ]

-- A check that was never notified.
first_notification :
    {S : Type 0} (r : Reconciler S) (w : World S) (dc : DriftCheck)
    → IsDigest w.crypto
    → dc.status.last_notified_hash ≡ []
    → is_silent r w dc ≡ (is_empty (webhooks_of r w dc) || is_resolved r w dc)
unfolding is_silent
first_notification r w dc digest never =
    let told = drift_hash-ne-nil w.crypto dc.status.drifted_resources digest in
    ground (arith, eq_of_== (hash_of r w dc) dc.status.last_notified_hash)

module _ {S : Type 0} (r : Reconciler S) (w : World S) (dc : DriftCheck) where
  -- The last notification: none, or that of a set of resources, by its fingerprint.
  abbrev pub LastTold : Option (List DriftedResource) → Type 0
  LastTold none = dc.status.last_notified_hash ≡ []
  LastTold (some told) =
      (dc.status.last_notified_hash ≡ drift_hash w.crypto told) × All IsClean told

  -- Nothing is new: no drift has been counted before the first notification, or the set is the one
  -- told last, unless SHA-256 has a collision.
  abbrev pub NothingNew : Option (List DriftedResource) → Type 0
  NothingNew none = is_resolved r w dc ≡ true
  NothingNew (some told) = Perm told dc.status.drifted_resources ⊎ Collision w.crypto

  -- A notify is silent only for a reason: there is no webhook, or nothing is new. The resources are
  -- clean, and a digest is made of bytes and is not empty.
  pub silent_reason :
      (last : Option (List DriftedResource))
      → LastTold last
      → IsDigest w.crypto
      → All IsClean dc.status.drifted_resources
      → is_silent r w dc ≡ true
      → (webhooks_of r w dc ≡ []) ⊎ NothingNew last
  silent_reason none never digest clean h =
      first_reason _ _ (sym (first_notification r w dc digest never) ∙ h)
  silent_reason (some told) (last, clean_told) digest clean h =
      reason_of_told r w dc told last digest clean_told clean h
