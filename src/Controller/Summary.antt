-- ===== src/Controller/Summary.antt =====
-- `summarize` of internal/controller/driftcheck_controller.go, `driftCount` and `buildEvent` of
-- internal/controller/notify.go
pub mod Counts
pub mod Listed
use kube_drift.Common.{ℕ, ◌+◌, Bool, List, [], ◌∷◌, Text, ◌==◌, if◌then◌else◌}
use kube_drift.Api.{
  DriftCheck, DriftedResource, DriftSummary, drift_changed, drift_new, drift_deleted,
}
use kube_drift.Libraries.{DiffResult}
use kube_drift.Notify

-- The cases of the `switch` on `res.Status`.
pub data Kind : Type 0 where
  is_changed is_new is_deleted is_unchanged : Kind

unfoldable pub kind_of : Text → Kind
kind_of status =
    if status == drift_changed
    then is_changed
    else if status == drift_new
    then is_new
    else if status == drift_deleted
    then is_deleted
    else is_unchanged

abbrev pub no_drift : DriftSummary
no_drift = record { changed = 0; new = 0; deleted = 0; unchanged = 0 }

unfoldable pub tally : Kind → DriftSummary → DriftSummary
tally is_changed s = record s { changed = s.changed + 1 }
tally is_new s = record s { new = s.new + 1 }
tally is_deleted s = record s { deleted = s.deleted + 1 }
tally is_unchanged s = record s { unchanged = s.unchanged + 1 }

unfoldable pub to_drifted : DiffResult → DriftedResource
to_drifted res = record {
  api_version = res.api_version;
  kind = res.kind;
  name = res.name;
  namespace = res.namespace;
  status = res.status;
}

-- `continue` in the default case skips the append.
unfoldable pub with_drifted : Kind → DriftedResource → List DriftedResource → List DriftedResource
with_drifted is_unchanged d ds = ds
with_drifted _ d ds = d ∷ ds

-- The loop, with the summary so far. The list is built behind it, in order.
unfoldable pub summarize_from : DriftSummary → List DiffResult → List DriftedResource × DriftSummary
unfolding kind_of tally to_drifted with_drifted
summarize_from s [] = ([], s)
summarize_from s (res ∷ results) =
    let k = kind_of res.status in
    let (ds, s') = summarize_from (tally k s) results in (with_drifted k (to_drifted res) ds, s')

unfoldable pub summarize : List DiffResult → List DriftedResource × DriftSummary
unfolding summarize_from
summarize results = summarize_from no_drift results

unfoldable pub drift_count : DriftSummary → ℕ
drift_count s = s.changed + s.new + s.deleted

unfoldable pub to_resource : DriftedResource → Notify.Resource
to_resource d = record {
  api_version = d.api_version;
  kind = d.kind;
  name = d.name;
  namespace = d.namespace;
  status = d.status;
}

unfoldable pub to_resources : List DriftedResource → List Notify.Resource
unfolding to_resource
to_resources [] = []
to_resources (d ∷ ds) = to_resource d ∷ to_resources ds

unfoldable pub build_event : DriftCheck → Bool → Notify.Event
unfolding to_resources
build_event dc resolved = record {
  name = dc.name;
  namespace = dc.namespace;
  summary = record {
    changed = dc.status.summary.changed;
    new = dc.status.summary.new;
    deleted = dc.status.summary.deleted;
    unchanged = dc.status.summary.unchanged;
  };
  drifted = if resolved then [] else to_resources dc.status.drifted_resources;
  resolved = resolved;
}
