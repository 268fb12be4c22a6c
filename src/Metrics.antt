-- ===== src/Metrics.antt =====
-- internal/metrics/metrics.go: `RecordDrift` and `Delete`. The flag says whether there is a
-- recorder: the methods of a nil one do nothing.
pub mod Gauges
use kube_drift.Common.{ℕ, Bool, true, false, Text, text}
use kube_drift.Machine.{Exec, pure, effect, ◌>>◌, set_gauge, deleted_gauges}
use kube_drift.Libraries.{GaugeVec}

module _ {S : Type 0} (gauges : GaugeVec S) where
  unfoldable pub set_status : Text → Text → Text → ℕ → Exec S (Unit {0})
  set_status name namespace status n =
      effect (set_gauge name namespace status n) (gauges.set name namespace status n)

  unfoldable pub record_drift : Bool → Text → Text → ℕ → ℕ → ℕ → ℕ → Exec S (Unit {0})
  unfolding set_status
  record_drift false name namespace changed added deleted unchanged = pure tt
  record_drift true name namespace changed added deleted unchanged = do
    set_status name namespace (text "changed") changed
    set_status name namespace (text "new") added
    set_status name namespace (text "deleted") deleted
    set_status name namespace (text "unchanged") unchanged

  unfoldable pub delete : Bool → Text → Text → Exec S (Unit {0})
  delete false name namespace = pure tt
  delete true name namespace =
      effect (deleted_gauges name namespace) (gauges.delete_partial_match name namespace)
