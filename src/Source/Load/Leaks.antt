-- ===== src/Source/Load/Leaks.antt =====
-- The temporary directories that a `Load` which succeeds leaves behind.
use kube_drift.Common.{◌≡◌, refl, Option, none, some, Text}
use kube_drift.Errors.{Error, Result, ok, err}
use kube_drift.Machine.{attempt, Exec, lift, ◌>>=◌}
use kube_drift.Machine.Rules.{Keeps-ask, Keeps-pure, Keeps-lift, Keeps-bind, keeps_rules}
use kube_drift.Machine.Successes.{KeepsIfOk, KeepsIfOk-intro, KeepsIfOk-bind, KeepsIfOk-if}
use kube_drift.Libraries.{Os}
use kube_drift.Source.{Source, bytes, git, helm, kustomize, target_filter, HelmSource, Outcome}
use kube_drift.Source.Charts.{Progress, Charts}
use kube_drift.Source.Checkout.Cleanup.{leaked, leaked-bracket, leaked-with_checkout}
use kube_drift.Source.Dependencies.{
  canceled, after_repo_cleanup, reply, build_dependencies, default_build, run_build_deps,
}
use kube_drift.Source.Load.Directories.{
  Keeps-update_dependencies, Keeps-render_helm_chart, Keeps-render_kustomize, BuildKeeps, IsTidy,
}
use kube_drift.Source.Load.{
  begun_of, Backends, build_of, load_git, load_chart_dir, load_overlay, load,
}

after_repo_cleanup_strict :
    (dir : Text) (c r : Result (Unit {0})) (b : Unit {0})
    → after_repo_cleanup dir c r ≡ ok b
    → (c ≡ ok tt) × ((a : Unit {0}) × (r ≡ ok a))
after_repo_cleanup_strict dir (ok tt) (ok a) b h = (refl, (a, refl))
after_repo_cleanup_strict dir (err e) (ok a) b h = cc
after_repo_cleanup_strict dir (ok tt) (err x) b h = cc
after_repo_cleanup_strict dir (err e) (err x) b h = cc

module _ {S : Type 0} (os : Os S) (charts : Charts S) (chart_dir : Text) where
  KeepsIfOk-build_dependencies : KeepsIfOk leaked (build_dependencies os charts chart_dir)
  unfolding build_dependencies
  KeepsIfOk-build_dependencies = KeepsIfOk-bind _ _ (KeepsIfOk-intro _ (search keeps_rules)) (λ ch.
      leaked-bracket _ _ _ _ _ _
        (λ dir. KeepsIfOk-intro _ (Keeps-update_dependencies os charts chart_dir dir ch))
        after_repo_cleanup_strict)

  -- The default build answers what it returns.
  KeepsIfOk-default_build :
      KeepsIfOk leaked (default_build os charts chart_dir >>= λ o. lift (reply o))
  unfolding default_build ◌>>=◌
  KeepsIfOk-default_build = record { at = KeepsIfOk-build_dependencies.at }

  -- A build that is abandoned is an error.
  KeepsIfOk-canceled :
      (begun : Exec S (Unit {0})) (e : Error)
      → KeepsIfOk leaked (attempt begun >>= λ _. lift {A = Unit {0}} (canceled e))
  unfolding ◌>>=◌
  KeepsIfOk-canceled begun e = record { at = λ m b h. cc }

  KeepsIfOk-run_build_deps :
      (build : Text → Exec S Outcome) (begun : Progress → Text → Exec S (Unit {0}))
      → KeepsIfOk leaked (build chart_dir >>= λ o. lift (reply o))
      → KeepsIfOk leaked (run_build_deps os charts build begun chart_dir)
  unfolding run_build_deps
  KeepsIfOk-run_build_deps build begun kb =
      KeepsIfOk-bind _ _ (KeepsIfOk-intro _ (Keeps-ask _))
        (elim [ some (e, p) ↦ KeepsIfOk-canceled (begun p chart_dir) e | none ↦ kb ])

module _ {S : Type 0} (b : Backends S) where
  KeepsIfOk-build :
      (build : Option (Text → Exec S Outcome)) (dir : Text)
      → BuildKeeps leaked build
      → KeepsIfOk leaked (
          (elim build as (λ _. Text → Exec S Outcome) [
            | none ↦ default_build b.os b.charts
            | some f ↦ f
          ])
            dir
          >>= λ o. lift (reply o))
  KeepsIfOk-build none dir h = KeepsIfOk-default_build b.os b.charts dir
  KeepsIfOk-build (some f) dir h = KeepsIfOk-intro _ (Keeps-bind _ _ (h dir) (λ o. Keeps-lift _))

  KeepsIfOk-load_chart_dir :
      (h : HelmSource S) (dir : Text)
      → BuildKeeps leaked h.build_deps
      → KeepsIfOk leaked (load_chart_dir b h dir)
  unfolding load_chart_dir
  KeepsIfOk-load_chart_dir h dir kb =
      let built = KeepsIfOk-build h.build_deps dir kb in
      let run = KeepsIfOk-run_build_deps b.os b.charts dir (build_of b h) (begun_of b h) built in
      KeepsIfOk-bind _ _
        (KeepsIfOk-if h.dependency_build _ _ run (KeepsIfOk-intro _ (Keeps-pure tt)))
        (λ _. KeepsIfOk-intro _ (
          Keeps-bind _ _ (Keeps-render_helm_chart b.os b.charts dir _ _ _ _)
            (λ manifests. Keeps-lift _)))

  -- A load that gives resources leaves no temporary directory: neither that of its checkout nor that
  -- of a dependency build is still there, since a removal that fails is an error. Injected clones and
  -- builds leave none themselves.
  pub leaked-load : (src : Source S) → IsTidy leaked src → KeepsIfOk leaked (load b src)
  unfolding load load_git load_overlay
  leaked-load (bytes t) h = KeepsIfOk-intro _ (Keeps-lift _)
  leaked-load (git g) h =
      leaked-with_checkout b.os b.git g.url g.ref g.path g.auth g.clone _ h
        (λ p. KeepsIfOk-intro _ (Keeps-ask _))
  leaked-load (helm c) h =
      leaked-with_checkout b.os b.git c.url c.ref c.path c.auth c.clone _ h.0
        (λ dir. KeepsIfOk-load_chart_dir c dir h.1)
  leaked-load (kustomize k) h =
      leaked-with_checkout b.os b.git k.url k.ref k.path k.auth k.clone _ h (λ dir.
        KeepsIfOk-intro _
          (Keeps-bind _ _ (Keeps-render_kustomize b.os b.charts dir) (λ manifests. Keeps-lift _)))
  leaked-load (target_filter src names sel) h =
      KeepsIfOk-bind _ _ (leaked-load src h) (λ all. KeepsIfOk-intro _ (Keeps-pure _))
