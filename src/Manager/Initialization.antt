-- ===== src/Manager/Initialization.antt =====
-- What the packages do before `main`: the `init` functions of cmd/main.go,
-- internal/metrics/metrics.go and api/v1alpha1.
pub mod Launch
use kube_drift.Common.{◌≡◌, refl, ◌⊎◌, inl, inr, Option, none, some, List, [], ◌∷◌, Text, text}
use kube_drift.Errors.{Error, Result, ok, err, Result-cases}
use kube_drift.Libraries.{Http}
use kube_drift.Manager.{
  Runtime, SchemeBuilder, Step, registered, added_client_go, added_types, panicked, Process,
  Program, ◌>>=◌, ◌>>◌, main,
}
use kube_drift.Manager.CommandLine.{Foreign}

-- What the packages register at. The scheme is one object of the process.
pub record Registries (S : Type 0) : Type 0 where
  -- `Registry.Register` of a gauge vector, by its name and labels
  pub register : Text → List Text → S → Result (Unit {0}) × S
  -- `clientgoscheme.AddToScheme(scheme)`
  pub client_go_add_to_scheme : S → Result (Unit {0}) × S
  -- `SchemeBuilder.AddToScheme(scheme)`
  pub add_to_scheme : SchemeBuilder → S → Result (Unit {0}) × S

unfoldable pub drifted_resources_name : Text
drifted_resources_name = text "kube_drift_resources"

unfoldable pub drifted_resources_labels : List Text
drifted_resources_labels = text "driftcheck" ∷ text "namespace" ∷ text "status" ∷ []

-- `SchemeBuilder.Register(&DriftCheck{}, &DriftCheckList{})`
unfoldable pub registered_types : List Text
registered_types = text "DriftCheck" ∷ text "DriftCheckList" ∷ []

-- `SchemeBuilder`, behind the `init` of its package.
unfoldable pub scheme_builder : SchemeBuilder
unfolding registered_types
scheme_builder = record {
  group = text "drift.somaz.io";
  version = text "v1alpha1";
  types = registered_types;
}

module _ {S : Type 0} where
  unfoldable pub or_panic : Result (Unit {0}) → Program S (Unit {0})
  or_panic (ok u) p = (some u, p)
  or_panic (err e) p = (none, record p { steps = panicked e ∷ p.steps })

  -- `utilruntime.Must` of a call, which panics with its error.
  unfoldable pub must :
      (Result (Unit {0}) → Step S) → (S → Result (Unit {0}) × S) → Program S (Unit {0})
  unfolding or_panic
  must note f p =
      let (r, s) = f p.world in or_panic r (record { world = s; steps = note r ∷ p.steps })

  -- `init` of internal/metrics
  unfoldable pub init_metrics : Registries S → Program S (Unit {0})
  unfolding must drifted_resources_name drifted_resources_labels
  init_metrics reg =
      must (registered drifted_resources_name drifted_resources_labels)
        (reg.register drifted_resources_name drifted_resources_labels)

  -- `init` of cmd/main.go
  unfoldable pub init_scheme : Registries S → Program S (Unit {0})
  unfolding must scheme_builder
  init_scheme reg = do
    must added_client_go reg.client_go_add_to_scheme
    must (added_types scheme_builder) (reg.add_to_scheme scheme_builder)

  -- Packages come before those that import them.
  unfoldable pub initialize : Registries S → Program S (Unit {0})
  unfolding init_metrics init_scheme
  initialize reg = init_metrics reg >> init_scheme reg

  -- The whole process.
  unfoldable pub process :
      Registries S → Runtime S → Http S → Foreign → List Text → Program S (Unit {0})
  unfolding initialize
  process reg rt http fs args = initialize reg >> main rt http fs args
