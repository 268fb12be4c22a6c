-- ===== src/Metrics/Gauges.antt =====
-- What the gauges show after `RecordDrift` and `Delete`, over a lawful gauge vector.
use kube_drift.Common.{
  ℕ, ◌≡◌, refl, ◌∙◌, Bool, true, false, Option, none, some, Text, text, ◌==◌, eq_refl, ◌&&◌,
  if◌then◌else◌, arith,
}
use kube_drift.Machine.{Machine, effect, ◌>>=◌}
use kube_drift.Libraries.{GaugeVec}
use kube_drift.Metrics.{record_drift, delete}

-- The documented behaviour of a GaugeVec over three labels: a write is read back under its labels,
-- and a partial deletion takes all that have the two given.
pub record IsGaugeVec {S : Type 0} (g : GaugeVec S) : Type 0 where
  pub of_set :
      (n ns st n' ns' st' : Text) (v : ℕ) (s : S)
      → g.value n' ns' st' (g.set n ns st v s)
        ≡ (if n == n' && ns == ns' && st == st' then some v else g.value n' ns' st' s)
  pub of_delete :
      (n ns n' ns' st' : Text) (s : S)
      → g.value n' ns' st' (g.delete_partial_match n ns s)
        ≡ (if n == n' && ns == ns' then none else g.value n' ns' st' s)

-- The gauges of a check, by status.
pub record Shows {S : Type 0} (g : GaugeVec S) (s : S) (n ns : Text) (c a d u : ℕ) : Type 0 where
  pub changed : g.value n ns (text "changed") s ≡ some c
  pub added : g.value n ns (text "new") s ≡ some a
  pub deleted : g.value n ns (text "deleted") s ≡ some d
  pub unchanged : g.value n ns (text "unchanged") s ≡ some u

differs : (a b c : Bool) (v w : Option ℕ) → (a && b) ≡ false → (if a && b && c then v else w) ≡ w
differs a b c v w h = ground arith

module _ {S : Type 0} (g : GaugeVec S) (lawful : IsGaugeVec g) (n ns : Text) where
  set-read :
      (st st' : Text) (v : ℕ) (s : S)
      → g.value n ns st' (g.set n ns st v s) ≡ (if st == st' then some v else g.value n ns st' s)
  set-read st st' v s = lawful.of_set n ns st n ns st' v s ∙ rw (eq_refl n, eq_refl ns) refl

  set-other :
      (st : Text) (v : ℕ) (s : S) (n' ns' st' : Text)
      → (n == n' && ns == ns') ≡ false
      → g.value n' ns' st' (g.set n ns st v s) ≡ g.value n' ns' st' s
  set-other st v s n' ns' st' h =
      lawful.of_set n ns st n' ns' st' v s
      ∙ differs (n == n') (ns == ns') (st == st') (some v) (g.value n' ns' st' s) h

  abbrev recorded : ℕ → ℕ → ℕ → ℕ → Machine S → Machine S
  recorded c a d u m = (record_drift g true n ns c a d u m).1

  recorded-Shows : (c a d u : ℕ) (m : Machine S) → Shows g (recorded c a d u m).world n ns c a d u
  unfolding record_drift effect ◌>>=◌ ◌==◌
  recorded-Shows c a d u m = record {
    changed = rw set-read (rw set-read (rw set-read (rw set-read refl)));
    added = rw set-read (rw set-read (rw set-read refl));
    deleted = rw set-read (rw set-read refl);
    unchanged = rw set-read refl;
  }

  recorded-other :
      (c a d u : ℕ) (m : Machine S) (n' ns' st' : Text)
      → (n == n' && ns == ns') ≡ false
      → g.value n' ns' st' (recorded c a d u m).world ≡ g.value n' ns' st' m.world
  unfolding record_drift effect ◌>>=◌
  recorded-other c a d u m n' ns' st' h =
      set-other _ u _ n' ns' st' h
      ∙ set-other _ d _ n' ns' st' h
      ∙ set-other _ a _ n' ns' st' h
      ∙ set-other _ c _ n' ns' st' h

  -- After a record the four gauges of the check show the four counts. A deletion behind it takes
  -- them all, and the two together leave the gauges of every other check as they were. The gauge
  -- vector is lawful, and there is a recorder.
  pub record_drift-Shows :
      (c a d u : ℕ) (m : Machine S)
      → let m1 = (record_drift g true n ns c a d u m).1 in
        let m2 = (delete g true n ns m1).1 in
        Shows g m1.world n ns c a d u
        × ((st : Text) → g.value n ns st m2.world ≡ none)
        × ((n' ns' st : Text)
            → (n == n' && ns == ns') ≡ false
            → g.value n' ns' st m2.world ≡ g.value n' ns' st m.world)
  unfolding delete effect
  record_drift-Shows c a d u m =
      let m1 = recorded c a d u m in
      (
        recorded-Shows c a d u m,
        λ st. lawful.of_delete n ns n ns st m1.world ∙ rw (eq_refl n, eq_refl ns) refl,
        λ n' ns' st h.
            lawful.of_delete n ns n' ns' st m1.world
            ∙ rw h refl
            ∙ recorded-other c a d u m n' ns' st h,
      )
