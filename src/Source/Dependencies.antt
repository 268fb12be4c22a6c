-- ===== src/Source/Dependencies.antt =====
-- `buildDependencies`, `dependencyRepoFile` and `runBuildDeps` of internal/source/helm.go
pub mod Repositories
pub mod Names
pub mod Background
use kube_drift.Common.{
  ℕ, Bool, true, false, Option, none, some, List, [], ◌∷◌, ◌++◌, Text, text, ◌==◌, ◌&&◌, ◌||◌, not,
  length, has_prefix, if◌then◌else◌,
}
use kube_drift.Errors.{Error, Result, ok, err, errorf, wrapf}
use kube_drift.Errors.Format.{str, num, sprintf}
use kube_drift.Machine.{
  Exec, pure, fail, lift, ask, act, attempt, wrapped, ◌>>=◌, ◌>>◌, made_dir, removed_dir,
}
use kube_drift.Libraries.{Os}
use kube_drift.Source.{Outcome, returned, panicked}
use kube_drift.Source.Charts.{
  Charts, Chart, Entry, Progress, unbegun, loaded, made, configured, updated, ended,
}
use kube_drift.Source.Target.{listed}

-- A repository that has to be registered: by HTTP or HTTPS.
unfoldable pub is_http : Text → Bool
is_http u = has_prefix u (text "http://") || has_prefix u (text "https://")

-- The loop over the dependencies, with the set `seen` and the entries so far.
unfoldable pub register : List Text → List Text → List Entry → List Entry
unfolding is_http listed
register [] seen entries = entries
register (u ∷ deps) seen entries =
    let entry : Entry = record {
      name = sprintf (text "dep-%d") (num (length entries) ∷ []);
      url = u;
    } in
    let next = register deps (u ∷ seen) (entries ++ entry ∷ []) in
    let skipped = register deps seen entries in
    if not (is_http u) || listed u seen then skipped else next

unfoldable pub dependency_repo_file : List Text → List Entry
unfolding register
dependency_repo_file deps = register deps [] []

-- What the goroutine sends on the channel.
abbrev pub reply : Outcome → Result (Unit {0})
reply (returned r) = r
reply (panicked p) = err (errorf "helm dependency build panicked: %v" (str p ∷ []))

-- What is returned where the context is done.
abbrev pub canceled : Error → Result (Unit {0})
canceled e = err (wrapf "helm dependency build canceled: %w" [] e)

-- `filepath.Join` of a directory and a file name
abbrev pub file_in : Text → Text → Text
file_in dir name = dir ++ text "/" ++ name

abbrev pub after_repo_cleanup : Text → Result (Unit {0}) → Result (Unit {0}) → Result (Unit {0})
after_repo_cleanup dir (err rerr) (ok a) =
    err (wrapf "cleanup helm repo temp dir %s: %w" (str dir ∷ []) rerr)
after_repo_cleanup dir (err rerr) (err e) = err e
after_repo_cleanup dir (ok _) outcome = outcome

module _ {S : Type 0} (os : Os S) (charts : Charts S) where
  unfoldable pub update_dependencies : Text → Text → Chart → Exec S (Unit {0})
  unfolding dependency_repo_file
  update_dependencies chart_dir repo_dir ch = do
    let config = file_in repo_dir (text "repositories.yaml")
    wrapped "write helm repo config: %w" []
        (ask (charts.write_repo_file (dependency_repo_file ch.dependencies) config))
    registry ←
        wrapped "create helm registry client: %w" []
          (lift (charts.new_registry_client (file_in repo_dir (text "registry.json"))))
    wrapped "build chart dependencies: %w" []
        (ask (charts.update chart_dir config repo_dir registry))

  unfoldable pub build_dependencies : Text → Exec S (Unit {0})
  unfolding update_dependencies
  build_dependencies chart_dir = do
    ch ← wrapped "load chart %s: %w" (str chart_dir ∷ []) (ask (charts.load_chart chart_dir))
    repo_dir ←
        wrapped "create helm repo temp dir: %w" []
          (act made_dir (os.mkdir_temp (text "kube-drift-helm-repo-")))
    outcome ← attempt (update_dependencies chart_dir repo_dir ch)
    cleaned ← attempt (act (removed_dir repo_dir) (os.remove_all repo_dir))
    lift (after_repo_cleanup repo_dir cleaned outcome)

  -- The default build, as the goroutine runs it. The libraries' panics are not modelled.
  unfoldable pub default_build : Text → Exec S Outcome
  unfolding build_dependencies
  default_build chart_dir = do
    outcome ← attempt (build_dependencies chart_dir)
    pure (returned outcome)

  -- The calls that the default build has made behind the first one, up to its directory's removal.
  unfoldable pub begun_in : Progress → Text → Text → Chart → Exec S (Unit {0})
  unfolding update_dependencies
  begun_in configured chart_dir repo_dir ch =
      let config = file_in repo_dir (text "repositories.yaml") in
      ask (charts.write_repo_file (dependency_repo_file ch.dependencies) config)
  begun_in updated chart_dir repo_dir ch = update_dependencies chart_dir repo_dir ch
  begun_in _ chart_dir repo_dir ch = pure tt

  -- A default build with its directory.
  unfoldable pub begun_made : Progress → Text → Exec S (Unit {0})
  unfolding begun_in
  begun_made p chart_dir = do
    ch ← ask (charts.load_chart chart_dir)
    repo_dir ← act made_dir (os.mkdir_temp (text "kube-drift-helm-repo-"))
    begun_in p chart_dir repo_dir ch

  -- What the default build has done in the goroutine when it has come so far.
  unfoldable pub begun_build : Progress → Text → Exec S (Unit {0})
  unfolding begun_made build_dependencies
  begun_build unbegun chart_dir = pure tt
  begun_build loaded chart_dir = do ask (charts.load_chart chart_dir); pure tt
  begun_build made chart_dir = begun_made made chart_dir
  begun_build configured chart_dir = begun_made configured chart_dir
  begun_build updated chart_dir = begun_made updated chart_dir
  begun_build ended chart_dir = build_dependencies chart_dir

  -- The goroutine and the `select`: `cancelled` says which channel it takes. If it takes that of the
  -- context, the build has come as far as `cancelled` says; what it does in the background
  -- afterwards is no part of the run.
  unfoldable pub run_build_deps :
      (Text → Exec S Outcome) → (Progress → Text → Exec S (Unit {0})) → Text → Exec S (Unit {0})
  run_build_deps build begun chart_dir = do
    done ← ask (λ s. let (e, s') = charts.cancelled s in (ok e, s'))
    elim done [
      | some (e, p) ↦ do attempt (begun p chart_dir); lift (canceled e)
      | none ↦ do outcome ← build chart_dir; lift (reply outcome)
    ]
