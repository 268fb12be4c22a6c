-- ===== src/Source/Load/Confined.antt =====
-- The paths that a source's `Load` reads.
use kube_drift.Common.{ℕ, ◌≡◌, refl, List, [], ◌∷◌, Text, text, Option-cases, inl, inr}
use kube_drift.Errors.{Result, ok}
use kube_drift.Errors.Format.{str}
use kube_drift.Machine.{Machine, ask, wrapped, ◌>>=◌}
use kube_drift.Machine.Rules.{Yields, Yields-wrapped}
use kube_drift.Machine.Sameness.{bind-same}
use kube_drift.Libraries.{Resource}
use kube_drift.Source.{
  Source, bytes, git, helm, kustomize, target_filter, GitSource, HelmSource, KustomizeSource,
}
use kube_drift.Source.Values.{Fields}
use kube_drift.Source.Charts.{Progress, unbegun, loaded, made, configured, updated, ended, Chart}
use kube_drift.Source.Clone.{git_clone}
use kube_drift.Source.Checkout.Paths.{Confines, with_checkout_cong}
use kube_drift.Source.Dependencies.{
  begun_build, begun_made, begun_in, run_build_deps, default_build,
}
use kube_drift.Source.Helm.{merge_files, render_helm_chart}
use kube_drift.Source.Load.{
  begun_of, Backends, load_git, load_helm, load_kustomize, load_chart_dir, load_overlay, build_of,
  load,
}

-- All that a load calls to read a file or a directory by its path.
pub record Readers (S : Type 0) : Type 0 where
  pub read_file : Text → S → Result Text × S
  pub file_source_load : Text → S → Result (List Resource) × S
  pub load_chart : Text → S → Result Chart × S
  pub kustomize_run : Text → S → Result ℕ × S
  -- of a chart, with the files of its build's own directory
  pub update : Text → Text → Text → ℕ → S → Result (Unit {0}) × S

module _ {S : Type 0} (b : Backends S) (r : Readers S) where
  -- The same backends, but for what reads.
  abbrev pub elsewhere : Backends S
  elsewhere = record b {
    os = record b.os { read_file = r.read_file };
    diff = record b.diff { file_source_load = r.file_source_load };
    charts = record b.charts {
      load_chart = r.load_chart;
      kustomize_run = r.kustomize_run;
      update = r.update;
    };
  }

  -- The two agree at a path.
  pub record AgreesAt (p : Text) : Type 0 where
    pub file : b.os.read_file p ≡ r.read_file p
    pub directory : b.diff.file_source_load p ≡ r.file_source_load p
    pub chart : b.charts.load_chart p ≡ r.load_chart p
    pub overlay : b.charts.kustomize_run p ≡ r.kustomize_run p
    pub update :
        (config cache : Text) (client : ℕ)
        → b.charts.update p config cache client ≡ r.update p config cache client

  module _ (Within : Text → Text → Type 0) (confined : Confines b.os Within) where
    Yields-joined :
        (root sub : Text)
        → Yields
            (Within root)
            (wrapped "resolve values file %q: %w" (str sub ∷ []) (ask (b.os.secure_join root sub)))
    unfolding ask
    Yields-joined root sub =
        Yields-wrapped _ _ _ (record { at = λ m p e. confined.of_join root sub p m.world e })

    -- Values files are read within the directory of the chart.
    merge_files-same :
        (chart_dir : Text)
        → ((p : Text) → Within chart_dir p → AgreesAt p)
        → (files : List Text) (vals : Fields)
        → merge_files b.os b.charts chart_dir files vals
          ≡ merge_files elsewhere.os elsewhere.charts chart_dir files vals
    unfolding merge_files
    merge_files-same chart_dir agrees [] vals = refl
    merge_files-same chart_dir agrees (vf ∷ files) vals =
        let joined =
          wrapped "resolve values file %q: %w" (str vf ∷ [])
            (ask (b.os.secure_join chart_dir vf)) in
        let within : Yields (Within chart_dir) joined = Yields-joined chart_dir vf in
        let rest = merge_files-same chart_dir agrees files in
        bind-same joined _ _ within (λ p h. simp ((agrees p h).file, rest))

    module _ (chart_dir : Text) (agrees : (p : Text) → Within chart_dir p → AgreesAt p) where
      abbrev here : AgreesAt chart_dir
      here = agrees chart_dir (confined.of_root chart_dir)

      render_helm_chart-same :
          (name ns inline : Text) (files : List Text)
          → render_helm_chart b.os b.charts chart_dir name ns inline files
            ≡ render_helm_chart elsewhere.os elsewhere.charts chart_dir name ns inline files
      unfolding render_helm_chart
      render_helm_chart-same name ns inline files =
          simp (here.chart, merge_files-same chart_dir agrees files)

      default_build-same :
          default_build b.os b.charts chart_dir
          ≡ default_build elsewhere.os elsewhere.charts chart_dir
      unfolding default_build
      default_build-same = simp (here.chart, here.update)

      build_of-same : (h : HelmSource S) → build_of b h chart_dir ≡ build_of elsewhere h chart_dir
      unfolding build_of
      build_of-same h = elim (Option-cases h.build_deps) [
        | inl none_given ↦ rw (none_given, build_of) default_build-same
        | inr (f, given) ↦ rw (given, build_of) refl
      ]

      begun_build-same :
          (p : Progress)
          → begun_build b.os b.charts p chart_dir
            ≡ begun_build elsewhere.os elsewhere.charts p chart_dir
      unfolding begun_build begun_made begun_in
      begun_build-same unbegun = refl
      begun_build-same loaded = simp here.chart
      begun_build-same made = simp here.chart
      begun_build-same configured = simp here.chart
      begun_build-same updated = simp (here.chart, here.update)
      begun_build-same ended = simp (here.chart, here.update)

      begun_of-same :
          (h : HelmSource S) (p : Progress)
          → begun_of b h p chart_dir ≡ begun_of elsewhere h p chart_dir
      unfolding begun_of
      begun_of-same h p = elim (Option-cases h.build_deps) [
        | inl none_given ↦ rw (none_given, begun_of) (begun_build-same p)
        | inr (f, given) ↦ rw (given, begun_of) refl
      ]

      run_build_deps-same :
          (h : HelmSource S)
          → run_build_deps b.os b.charts (build_of b h) (begun_of b h) chart_dir
            ≡ run_build_deps elsewhere.os elsewhere.charts
                (build_of elsewhere h)
                (begun_of elsewhere h)
                chart_dir
      unfolding run_build_deps
      run_build_deps-same h = λ i.
          run_build_deps b.os b.charts (λ _. build_of-same h i) (λ p _. begun_of-same h p i)
            chart_dir

      load_chart_dir-same :
          (h : HelmSource S) → load_chart_dir b h chart_dir ≡ load_chart_dir elsewhere h chart_dir
      unfolding load_chart_dir
      load_chart_dir-same h = simp (
        run_build_deps-same h,
        render_helm_chart-same h.release_name h.namespace h.values h.values_files,
      )

      load_overlay-same : load_overlay b chart_dir ≡ load_overlay elsewhere chart_dir
      unfolding load_overlay
      load_overlay-same = rw here.overlay refl

    -- The sources that clone read within the directory that is made for the checkout.
    module _ (within_trans : (p q s : Text) → Within p q → Within q s → Within p s) (dir : Text)
        (agrees : (p : Text) → Within dir p → AgreesAt p) (m : Machine S)
        (made : (b.os.mkdir_temp (text "kube-drift-git-") m.world).0 ≡ ok dir) where
      below : (q : Text) → Within dir q → (p : Text) → Within q p → AgreesAt p
      below q hq p hp = agrees p (within_trans dir q p hq hp)

      load_git-same : (g : GitSource S) → load_git b g m ≡ load_git elsewhere g m
      unfolding load_git git_clone
      load_git-same g =
          with_checkout_cong b.os b.git Within confined dir g.url g.ref g.path g.auth g.clone
            (λ p. ask (b.diff.file_source_load p)) (λ p. ask (r.file_source_load p)) m made
            (λ p m' h. rw (agrees p h).directory refl)

      load_helm-same : (h : HelmSource S) → load_helm b h m ≡ load_helm elsewhere h m
      unfolding load_helm git_clone
      load_helm-same h =
          with_checkout_cong b.os b.git Within confined dir h.url h.ref h.path h.auth h.clone
            (load_chart_dir b h) (load_chart_dir elsewhere h) m made
            (λ p m' k. rw (load_chart_dir-same p (below p k) h) refl)

      load_kustomize-same :
          (k : KustomizeSource S) → load_kustomize b k m ≡ load_kustomize elsewhere k m
      unfolding load_kustomize git_clone
      load_kustomize-same k =
          with_checkout_cong b.os b.git Within confined dir k.url k.ref k.path k.auth k.clone
            (load_overlay b) (load_overlay elsewhere) m made
            (λ p m' h. rw (load_overlay-same p (below p h)) refl)

      -- Whatever its source, a load reads files, charts and overlays, and updates a chart's
      -- dependencies, only at paths within the directory that was made for its checkout: with
      -- libraries that agree there it makes the same calls and gives the same resources or the same
      -- error. So neither the path nor a values file of a check leads out of its repository. Which
      -- bases an overlay, and which dependencies a chart refers to is up to the libraries. Securejoin
      -- confines the paths that it joins.
      pub load-confined : (src : Source S) → load b src m ≡ load elsewhere src m
      unfolding load ◌>>=◌
      load-confined (bytes t) = refl
      load-confined (git g) = load_git-same g
      load-confined (helm h) = load_helm-same h
      load-confined (kustomize k) = load_kustomize-same k
      load-confined (target_filter src names sel) = rw (load-confined src) refl
