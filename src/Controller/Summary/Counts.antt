-- ===== src/Controller/Summary/Counts.antt =====
-- The list and the counts of `summarize`.
use kube_drift.Common.{
  ℕ, ◌+◌, ◌≡◌, refl, ap, Bool, true, false, List, [], ◌∷◌, Text, ◌==◌, eq_of_==, ◌||◌, ◌⊎◌, length,
  arith, if◌then◌else◌,
}
use kube_drift.Api.{DriftedResource, DriftSummary, drift_changed, drift_new, drift_deleted}
use kube_drift.Libraries.{DiffResult}
use kube_drift.Controller.Summary.{
  is_changed, is_new, is_deleted, is_unchanged, kind_of, no_drift, tally, to_drifted,
  summarize_from, summarize, drift_count,
}

-- How many of the results have a status.
abbrev pub with_status : Text → List DiffResult → ℕ
with_status status [] = 0
with_status status (res ∷ results) =
    (if res.status == status then 1 else 0) + with_status status results

-- A result that differs from the desired state.
abbrev pub is_drift : Text → Bool
is_drift status = status == drift_changed || status == drift_new || status == drift_deleted

-- The results that differ, in order.
abbrev pub drifted_of : List DiffResult → List DriftedResource
drifted_of [] = []
drifted_of (res ∷ results) =
    let rest = drifted_of results in if is_drift res.status then to_drifted res ∷ rest else rest

-- A summary of the counts, on top of another.
pub record Counts (s : DriftSummary) (results : List DiffResult) (s' : DriftSummary) : Type 0 where
  pub changed : s'.changed ≡ s.changed + with_status drift_changed results
  pub new : s'.new ≡ s.new + with_status drift_new results
  pub deleted : s'.deleted ≡ s.deleted + with_status drift_deleted results
  pub total :
      s'.changed + s'.new + s'.deleted + s'.unchanged
      ≡ s.changed + s.new + s.deleted + s.unchanged + length results

==-ne : (s t u : Text) → (t == u) ≡ false → (s == t) ≡ true → (s == u) ≡ false
==-ne s t u ne h = rw (eq_of_== s t h) ne

-- No status is two of the three.
changed-ne-new : (s : Text) → (s == drift_changed) ≡ true → (s == drift_new) ≡ false
unfolding ◌==◌
changed-ne-new s h = ==-ne s drift_changed drift_new refl h

changed-ne-deleted : (s : Text) → (s == drift_changed) ≡ true → (s == drift_deleted) ≡ false
unfolding ◌==◌
changed-ne-deleted s h = ==-ne s drift_changed drift_deleted refl h

new-ne-deleted : (s : Text) → (s == drift_new) ≡ true → (s == drift_deleted) ≡ false
unfolding ◌==◌
new-ne-deleted s h = ==-ne s drift_new drift_deleted refl h

-- The `switch` takes the case of the status that the result has.
pub kind_of-cases :
    (s : Text)
    → ((kind_of s ≡ is_changed)
        × (is_drift s ≡ true)
        × ((s == drift_changed) ≡ true)
        × ((s == drift_new) ≡ false)
        × ((s == drift_deleted) ≡ false))
      ⊎ ((kind_of s ≡ is_new)
          × (is_drift s ≡ true)
          × ((s == drift_changed) ≡ false)
          × ((s == drift_new) ≡ true)
          × ((s == drift_deleted) ≡ false))
      ⊎ ((kind_of s ≡ is_deleted)
          × (is_drift s ≡ true)
          × ((s == drift_changed) ≡ false)
          × ((s == drift_new) ≡ false)
          × ((s == drift_deleted) ≡ true))
      ⊎ ((kind_of s ≡ is_unchanged)
          × (is_drift s ≡ false)
          × ((s == drift_changed) ≡ false)
          × ((s == drift_new) ≡ false)
          × ((s == drift_deleted) ≡ false))
unfolding kind_of
kind_of-cases s = ground (arith, changed-ne-new s, changed-ne-deleted s, new-ne-deleted s)

summarize_from-Counts :
    (s : DriftSummary) (results : List DiffResult) → Counts s results (summarize_from s results).1
unfolding summarize_from
summarize_from-Counts s [] = omega arith
summarize_from-Counts s (res ∷ results) =
    ground (
      arith,
      kind_of-cases res.status,
      summarize_from-Counts (tally (kind_of res.status) s) results,
    )

summarize_from-drifted :
    (s : DriftSummary) (results : List DiffResult)
    → (summarize_from s results).0 ≡ drifted_of results
unfolding summarize_from
summarize_from-drifted s [] = refl
summarize_from-drifted s (res ∷ results) =
    ground (
      arith,
      kind_of-cases res.status,
      summarize_from-drifted (tally (kind_of res.status) s) results,
    )

drifted_of-count :
    (results : List DiffResult)
    → length (drifted_of results)
      ≡ with_status drift_changed results
        + with_status drift_new results
        + with_status drift_deleted results
drifted_of-count [] = omega arith
drifted_of-count (res ∷ results) =
    ground (arith, kind_of-cases res.status, drifted_of-count results)

-- So a check that counts no drift lists none.
drift_count-summarize :
    (results : List DiffResult) → drift_count (summarize results).1 ≡ length (summarize results).0
unfolding drift_count summarize
drift_count-summarize results =
    let listed = ap length (summarize_from-drifted no_drift results) in
    ground (arith, listed, summarize_from-Counts no_drift results, drifted_of-count results)

-- The list keeps exactly the results that are changed, new or deleted, in order, and the summary
-- counts each kind; the four counts add up to the number of results, and `drift_count` of the
-- summary is the length of the list.
pub summarize_lem :
    (results : List DiffResult)
    → ((summarize results).0 ≡ drifted_of results)
      × Counts no_drift results (summarize results).1
      × (drift_count (summarize results).1 ≡ length (summarize results).0)
unfolding summarize
summarize_lem results = (
  summarize_from-drifted no_drift results,
  summarize_from-Counts no_drift results,
  drift_count-summarize results,
)
