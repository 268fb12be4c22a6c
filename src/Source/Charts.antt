-- ===== src/Source/Charts.antt =====
-- helm.sh/helm/v3 and sigs.k8s.io/kustomize: parameters of the model, as in Libraries.
use kube_drift.Common.{ℕ, Option, List, Text}
use kube_drift.Errors.{Error, Result}
use kube_drift.Source.Values.{Fields}

-- A loaded chart: its handle, the repositories of its declared dependencies, its crds/ files.
pub record Chart : Type 0 where
  pub handle : ℕ
  pub dependencies : List Text
  pub crds : List Text

-- repo.Entry
pub record Entry : Type 0 where
  pub name : Text
  pub url : Text

-- How far a dependency build has come: it has not begun, it has loaded the chart, made its directory,
-- written the repositories, updated the dependencies, or ended.
pub data Progress : Type 0 where
  unbegun loaded made configured updated ended : Progress

pub record Charts (S : Type 0) : Type 0 where
  pub load_chart : Text → S → Result Chart × S
  pub read_values : Text → Result Fields
  -- `chartutil.ProcessDependenciesWithMerge`, which may change the chart and the values
  pub process_dependencies : Chart → Fields → Result (Chart × Fields)
  pub to_render_values : Chart → Fields → Text → Text → Result Fields
  -- `engine.Render`: the templates' names and texts
  pub render : Chart → Fields → Result (List (Text × Text))
  -- `releaseutil.SortManifests`: the contents of the manifests that are no hooks
  pub sort_manifests : List (Text × Text) → Result (List Text)
  pub write_repo_file : List Entry → Text → S → Result (Unit {0}) × S
  pub new_registry_client : Text → Result ℕ
  -- `Manager.Update` of a chart with a repository config, a cache and a registry client
  pub update : Text → Text → Text → ℕ → S → Result (Unit {0}) × S
  -- Whether the context is done before the dependency build is: its error, and how far the build is.
  pub cancelled : S → Option (Error × Progress) × S
  -- `krusty` with its default options on the disk, as YAML: the build, then the output
  pub kustomize_run : Text → S → Result ℕ × S
  pub as_yaml : ℕ → Result Text
