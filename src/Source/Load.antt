-- ===== src/Source/Load.antt =====
-- The methods `Load` of internal/source: GitSource, HelmSource, KustomizeSource and targetFilter,
-- and the constructors of the sources.
pub mod Directories
pub mod Filtered
pub mod Confined
pub mod Leaks
use kube_drift.Common.{
  Bool, true, false, Option, none, some, List, [], ◌∷◌, Text, is_empty, ◌&&◌, if◌then◌else◌,
}
use kube_drift.Errors.{Result}
use kube_drift.Machine.{Exec, pure, lift, ask, ◌>>=◌, ◌>>◌}
use kube_drift.Libraries.{Os, Git, KubeDiff, Resource, Selector}
use kube_drift.Source.{
  Source, bytes, git, helm, kustomize, target_filter, GitSource, HelmSource, KustomizeSource,
  GitAuth, CloneFunc, Outcome,
}
use kube_drift.Source.Charts.{Progress, ended, Charts}
use kube_drift.Source.Checkout.{with_checkout}
use kube_drift.Source.Dependencies.{begun_build, run_build_deps, default_build}
use kube_drift.Source.Helm.{render_helm_chart, render_kustomize}
use kube_drift.Source.Target.{filter_loaded}

-- What a source calls.
pub record Backends (S : Type 0) : Type 0 where
  pub os : Os S
  pub git : Git S
  pub diff : KubeDiff S
  pub charts : Charts S

unfoldable pub new_target_filter : {S : Type 0} → Source S → List Text → Option Selector → Source S
new_target_filter src [] none = src
new_target_filter src [] (some sel) = target_filter src [] (some sel)
new_target_filter src (n ∷ names) sel = target_filter src (n ∷ names) sel

module _ {S : Type 0} (b : Backends S) where
  unfoldable pub load_git : GitSource S → Exec S (List Resource)
  unfolding with_checkout
  load_git g =
      with_checkout b.os b.git g.url g.ref g.path g.auth g.clone
        (λ path. ask (b.diff.file_source_load path))

  unfoldable pub build_of : HelmSource S → Text → Exec S Outcome
  unfolding default_build
  build_of h = elim h.build_deps [ none ↦ default_build b.os b.charts | some build ↦ build ]

  -- An injected build is seen only once it has ended.
  unfoldable pub begun_of : HelmSource S → Progress → Text → Exec S (Unit {0})
  unfolding begun_build
  begun_of h p chart_dir = elim h.build_deps [
    | none ↦ begun_build b.os b.charts p chart_dir
    | some build ↦ elim p [ ended ↦ do build chart_dir; pure tt | _ ↦ pure tt ]
  ]

  unfoldable pub load_chart_dir : HelmSource S → Text → Exec S (List Resource)
  unfolding run_build_deps render_helm_chart build_of begun_of
  load_chart_dir h chart_dir = do
    if h.dependency_build
        then run_build_deps b.os b.charts (build_of h) (begun_of h) chart_dir
        else pure tt
    manifests ←
        render_helm_chart b.os b.charts chart_dir h.release_name h.namespace h.values h.values_files
    lift (b.diff.bytes_source_load manifests)

  unfoldable pub load_helm : HelmSource S → Exec S (List Resource)
  unfolding with_checkout load_chart_dir
  load_helm h = with_checkout b.os b.git h.url h.ref h.path h.auth h.clone (load_chart_dir h)

  unfoldable pub load_overlay : Text → Exec S (List Resource)
  unfolding render_kustomize
  load_overlay dir = do
    manifests ← render_kustomize b.os b.charts dir
    lift (b.diff.bytes_source_load manifests)

  unfoldable pub load_kustomize : KustomizeSource S → Exec S (List Resource)
  unfolding with_checkout load_overlay
  load_kustomize k = with_checkout b.os b.git k.url k.ref k.path k.auth k.clone load_overlay

  unfoldable pub load : Source S → Exec S (List Resource)
  unfolding load_git load_helm load_kustomize filter_loaded
  load (bytes t) = lift (b.diff.bytes_source_load t)
  load (git g) = load_git g
  load (helm h) = load_helm h
  load (kustomize k) = load_kustomize k
  load (target_filter src names sel) = do all ← load src; pure (filter_loaded names sel all)
