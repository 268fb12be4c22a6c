-- ===== src/Controller/Notifying/Refinement.antt =====
-- `notify` as a round of the contract.
use kube_drift.Common.{
  ◌≡◌, refl, sym, ap, ◌∙◌, ◌≢◌, ◌⊎◌, inl, inr, Bool, true, false, List, [], ◌∷◌, ◌++◌, All, map,
  is_empty, eq_of_==, ◌==◌, nat_eq, eq_refl, Bool-cases, arith, length, if◌then◌else◌,
}
use mathlib.Core.Quot
use mathlib.Core.List.{append-nil}
use kube_drift.Machine.{Machine}
use kube_drift.Api.{DriftCheck}
use kube_drift.Controller.{World, Reconciler}
use kube_drift.Controller.Summary.{build_event}
use kube_drift.Controller.Summary.Listed.{Describes, drift_count-Describes}
use kube_drift.Controller.Fingerprint.Keys.{IsClean}
use kube_drift.Controller.Fingerprint.Dedup.{
  IsDigest, Collision, perm_of_drift_hash, drift_hash-ne-nil,
}
use kube_drift.Controller.Notifying.{webhooks_of, hash_of, is_resolved, is_silent, notify}
use kube_drift.Controller.Notifying.Silence.{notify_silent}
use kube_drift.Controller.Notifying.Calls.{writes, attempts, NotifierKeeps}
use kube_drift.Controller.Notifying.Delivery.{Attempt, Reached}
use kube_drift.Controller.Notifying.Told.{notify-Reached}
use kube_drift.Controller.Notifying.Told as Told
use kube_drift.Controller.Notifying.Contract.{
  Bag, bag, Heard, never, heard, Round, no_webhooks, repeated, clean, told, missed, Represents,
  none_heard, set_heard, drift_hash-bag, is_empty-bag,
}

is_empty-eq : {A : Type 0} (xs : List A) → is_empty xs ≡ true → xs ≡ []
is_empty-eq [] h = refl
is_empty-eq (x ∷ xs) h = cc

-- No count means an empty list.
nil_of_count : {A : Type 0} (xs : List A) → nat_eq (length xs) 0 ≡ true → xs ≡ []
nil_of_count [] h = refl
nil_of_count (x ∷ xs) h = absurd (ground arith)

count_of_nil : {A : Type 0} (xs : List A) → is_empty xs ≡ true → nat_eq (length xs) 0 ≡ true
count_of_nil [] h = refl
count_of_nil (x ∷ xs) h = cc

module _ {S : Type 0} (r : Reconciler S) (w : World S) (dc : DriftCheck)
    (digest : IsDigest w.crypto)
    (described : Describes dc.status.summary dc.status.drifted_resources)
    (now_clean : All IsClean dc.status.drifted_resources) where
  abbrev pub now : Bag
  now = bag dc.status.drifted_resources

  -- What some attempts reach of the check's webhooks.
  abbrev pub Reach : List Attempt → Bool → Type 0
  Reach = Reached r w dc.namespace (build_event dc (is_resolved r w dc)) (webhooks_of r w dc)

  resolved-eq : is_resolved r w dc ≡ nat_eq (length dc.status.drifted_resources) 0
  unfolding is_resolved
  resolved-eq = rw (drift_count-Describes _ _ described) refl

  -- A silent `notify` is a round without attempts.
  silent-Round :
      (s : Heard)
      → Represents w.crypto dc.status.last_notified_hash s
      → is_silent r w dc ≡ true
      → Round Reach (webhooks_of r w dc) now s [] s ⊎ Collision w.crypto
  unfolding is_silent hash_of
  silent-Round s known h = elim (Bool-cases (is_empty (webhooks_of r w dc))) [
    | inl none_there ↦ inl (no_webhooks (is_empty-eq _ none_there))
    | inr there ↦ elim (Bool-cases (hash_of r w dc == dc.status.last_notified_hash)) [
      | inl same ↦ by_hash s known (eq_of_== _ _ same)
      | inr differs ↦ by_count s known (ground arith) (ground arith)
    ]
  ]
    where
      by_hash :
          (s : Heard)
          → Represents w.crypto dc.status.last_notified_hash s
          → hash_of r w dc ≡ dc.status.last_notified_hash
          → Round Reach (webhooks_of r w dc) now s [] s ⊎ Collision w.crypto
      by_hash never (none_heard e) same = absurd (drift_hash-ne-nil w.crypto _ digest (same ∙ e))
      by_hash _ (set_heard set set_clean e) same =
          elim (perm_of_drift_hash w.crypto set _ digest set_clean now_clean (sym (same ∙ e))) [
            | inl p ↦ inl (repeated (ap heard (Quot.sound p)))
            | inr collision ↦ inr collision
          ]

      by_count :
          (s : Heard)
          → Represents w.crypto dc.status.last_notified_hash s
          → is_resolved r w dc ≡ true
          → is_empty dc.status.last_notified_hash ≡ true
          → Round Reach (webhooks_of r w dc) now s [] s ⊎ Collision w.crypto
      by_count never (none_heard e) resolved empty =
          inl (clean refl (ap bag (nil_of_count _ (sym resolved-eq ∙ resolved))))
      by_count _ (set_heard set set_clean e) resolved empty =
          absurd (drift_hash-ne-nil w.crypto set digest (sym e ∙ is_empty-eq _ empty))

  -- What a `notify` that is not silent has found.
  loud-new :
      (s : Heard)
      → Represents w.crypto dc.status.last_notified_hash s
      → is_silent r w dc ≡ false
      → s ≢ heard now
  unfolding is_silent hash_of
  loud-new never known h e = cc
  loud-new _ (set_heard set set_clean last) h e =
      let bags : bag set ≡ now = cc in
      let same = drift_hash-bag w.crypto set _ bags in
      let found : (hash_of r w dc == dc.status.last_notified_hash) ≡ true =
        rw (last ∙ same) (eq_refl _) in
      absurd (ground arith)

  loud-first :
      (s : Heard)
      → Represents w.crypto dc.status.last_notified_hash s
      → is_silent r w dc ≡ false
      → s ≡ never
      → now ≢ bag []
  unfolding is_silent
  loud-first never (none_heard last) h e empty =
      let resolved = resolved-eq ∙ count_of_nil _ (is_empty-bag _ empty) in
      let unset : is_empty dc.status.last_notified_hash ≡ true = rw last refl in
      absurd (ground arith)
  loud-first _ (set_heard set set_clean last) h e empty = cc

  -- How a `notify` leaves the attempts and the writes of a machine, by a round of the contract.
  pub record Implements (s : Heard) (m m' : Machine S) : Type 0 where
    pub taken : List Attempt
    pub after : Heard
    pub round : Round Reach (webhooks_of r w dc) now s taken after
    pub attempted :
        attempts m'.calls
        ≡ attempts m.calls ++ map (λ t. (t.0, build_event dc (is_resolved r w dc), t.1)) taken
    pub stored :
        ((writes m'.calls ≡ writes m.calls) × (after ≡ s))
        ⊎ (writes m'.calls ≡ Told.told r w dc ∷ writes m.calls)
          × Represents w.crypto (Told.told r w dc).status.last_notified_hash after

  -- A `notify` is a round of the contract, on the sets that the fingerprint and the status stand for.
  -- It attempts nothing if there is no webhook, the set was heard last, or it is empty and none was
  -- heard; else it sends the event once to each webhook that has a URL. It writes a status exactly if
  -- all took that event, with a fingerprint that stands for the set. Or SHA-256 has a collision. The
  -- status describes what it lists, its resources are clean, a digest is made of bytes and is not
  -- empty, and no injected notifier writes a status or itself notes an attempt.
  pub notify-Implements :
      (s : Heard) (m : Machine S)
      → Represents w.crypto dc.status.last_notified_hash s
      → NotifierKeeps writes r.notifier
      → NotifierKeeps attempts r.notifier
      → Implements s m (notify r w dc m).1 ⊎ Collision w.crypto
  unfolding hash_of
  notify-Implements s m known keeps_writes keeps_attempts = elim (Bool-cases (is_silent r w dc)) [
    | inl silent ↦ elim (silent-Round s known silent) [
      | inl round ↦ inl (
          rw (notify_silent r w dc silent m) (record {
            taken = [];
            after = s;
            round = round;
            attempted = sym (append-nil _);
            stored = inl (refl, refl);
          }))
      | inr collision ↦ inr collision
    ]
    | inr loud ↦
        let (ts, all, reached, attempted, written) =
          notify-Reached r w dc m keeps_writes keeps_attempts loud in
        inl (
          by_reach (notify r w dc m).1 ts all reached attempted written (loud-new s known loud)
            (loud-first s known loud))
  ]
    where
      by_reach :
          (m' : Machine S) (ts : List Attempt) (all : Bool)
          → Reach ts all
          → attempts m'.calls
            ≡ attempts m.calls ++ map (λ t. (t.0, build_event dc (is_resolved r w dc), t.1)) ts
          → writes m'.calls ≡ (if all then Told.told r w dc ∷ writes m.calls else writes m.calls)
          → s ≢ heard now
          → (s ≡ never → now ≢ bag [])
          → Implements s m m'
      by_reach m' ts true reached attempted written new first = record {
        taken = ts;
        after = heard now;
        round = told new first reached;
        attempted = attempted;
        stored = inr (written, set_heard dc.status.drifted_resources now_clean refl);
      }
      by_reach m' ts false reached attempted written new first = record {
        taken = ts;
        after = s;
        round = missed new first reached;
        attempted = attempted;
        stored = inl (written, refl);
      }
