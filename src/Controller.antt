-- ===== src/Controller.antt =====
-- internal/controller: the reconciler's fields and all that it acts through.
pub mod Summary
pub mod ConfigMaps
pub mod Secrets
pub mod Sources
pub mod Fingerprint
pub mod Notifying
pub mod Reconcile
use kube_drift.Common.{Bool, Option}
use kube_drift.Machine.{Exec}
use kube_drift.Libraries.{Kube, GaugeVec, Http, Crypto}
use kube_drift.Source.{CloneFunc}
use kube_drift.Source.Load.{Backends}
use kube_drift.Notify

abbrev pub Notifier : Type 0 → Type 0
Notifier S = Notify.Webhook → Notify.Event → Exec S (Unit {0})

-- A field that may be nil and of which only that matters is a flag.
pub record Reconciler (S : Type 0) : Type 0 where
  pub has_fetcher : Bool
  pub has_metrics : Bool
  pub git_cloner : Option (CloneFunc S)
  pub notifier : Option (Notifier S)
  pub has_recorder : Bool

pub record World (S : Type 0) : Type 0 where
  pub kube : Kube S
  pub gauges : GaugeVec S
  pub backends : Backends S
  pub http : Http S
  pub crypto : Crypto
