-- ===== src/Controller/Summary/Listed.antt =====
-- What a summary says of the list beside it.
use kube_drift.Common.{
  ℕ, ◌+◌, ◌≡◌, inl, inr, true, List, [], ◌∷◌, Text, ◌==◌, All, arith, if◌then◌else◌, Bool-cases,
  length,
}
use kube_drift.Api.{DriftedResource, DriftSummary, drift_changed, drift_new, drift_deleted}
use kube_drift.Libraries.{DiffResult}
use kube_drift.Controller.Summary.{to_drifted, summarize, drift_count}
use kube_drift.Controller.Summary.Counts.{
  with_status, is_drift, drifted_of, kind_of-cases, summarize_lem,
}

-- How many of the listed resources have a status.
abbrev pub listed_with : Text → List DriftedResource → ℕ
listed_with status [] = 0
listed_with status (d ∷ ds) = (if d.status == status then 1 else 0) + listed_with status ds

-- The summary counts what is listed, and all that is listed is drift.
pub record Describes (s : DriftSummary) (ds : List DriftedResource) : Type 0 where
  pub changed : s.changed ≡ listed_with drift_changed ds
  pub new : s.new ≡ listed_with drift_new ds
  pub deleted : s.deleted ≡ listed_with drift_deleted ds
  pub drift : All (λ d. is_drift d.status ≡ true) ds

drifted_of-listed :
    (results : List DiffResult)
    → (listed_with drift_changed (drifted_of results) ≡ with_status drift_changed results)
      × (listed_with drift_new (drifted_of results) ≡ with_status drift_new results)
      × (listed_with drift_deleted (drifted_of results) ≡ with_status drift_deleted results)
unfolding to_drifted
drifted_of-listed [] = ground arith
drifted_of-listed (res ∷ results) =
    ground (arith, kind_of-cases res.status, drifted_of-listed results)

drifted_of-drift :
    (results : List DiffResult) → All (λ d. is_drift d.status ≡ true) (drifted_of results)
unfolding to_drifted
drifted_of-drift [] = tt
drifted_of-drift (res ∷ results) = elim (Bool-cases (is_drift res.status)) [
  | inl h ↦ rw h (h, drifted_of-drift results)
  | inr h ↦ rw h (drifted_of-drift results)
]

pub summarize-Describes :
    (results : List DiffResult) → Describes (summarize results).1 (summarize results).0
summarize-Describes results =
    let (listed, counts, length) = summarize_lem results in
    let (changed, new, deleted) = drifted_of-listed results in
    record {
      changed = rw listed (omega (arith, counts.changed, changed));
      new = rw listed (omega (arith, counts.new, new));
      deleted = rw listed (omega (arith, counts.deleted, deleted));
      drift = rw listed (drifted_of-drift results);
    }

listed_with-length :
    (ds : List DriftedResource)
    → All (λ d. is_drift d.status ≡ true) ds
    → listed_with drift_changed ds + listed_with drift_new ds + listed_with drift_deleted ds
      ≡ length ds
listed_with-length [] h = omega arith
listed_with-length (d ∷ ds) h =
    ground (arith, kind_of-cases d.status, listed_with-length ds h.1, h.0)

-- The drift count of a summary that describes a list is its length.
pub drift_count-Describes :
    (s : DriftSummary) (ds : List DriftedResource) → Describes s ds → drift_count s ≡ length ds
unfolding drift_count
drift_count-Describes s ds h =
    omega (arith, h.changed, h.new, h.deleted, listed_with-length ds h.drift)
