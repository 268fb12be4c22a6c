-- ===== src/Source/Load/Directories.antt =====
-- The calls of a source's `Load`, and the temporary directories among them.
use kube_drift.Errors.{Error, Result}
use kube_drift.Common.{◌≡◌, inl, inr, Option-cases, Option, none, some, List, [], ◌∷◌, Text}
use kube_drift.Machine.{made_dir, pure, ask, ◌>>=◌, ◌>>◌, Call, Exec}
use kube_drift.Machine.Rules.{
  Keeps-attempt, Keeps, Keeps-bind, Keeps-pure, Keeps-lift, Keeps-ask, Keeps-if, keeps_rules,
}
use kube_drift.Libraries.{Os}
use kube_drift.Source.{
  Source, bytes, git, helm, kustomize, target_filter, GitSource, HelmSource, Outcome,
}
use kube_drift.Source.Values.{Fields, merge_values}
use kube_drift.Source.Charts.{
  Progress, unbegun, loaded, made, configured, updated, ended, Charts, Chart,
}
use kube_drift.Source.Dependencies.{
  begun_build, begun_made, begun_in, reply, canceled, update_dependencies, build_dependencies,
  default_build, run_build_deps,
}
use kube_drift.Source.Helm.{merge_files, render_helm_chart, render_kustomize}
use kube_drift.Source.Checkout.Cleanup.{
  pending, pending-KeepsBrackets, pending-IgnoresGit, Keeps-cloner, KeepsBrackets,
  Keeps-with_checkout, CloneKeeps,
}
use kube_drift.Source.Clone.Calls.{IgnoresGit}
use kube_drift.Source.Checkout.{cloner}
use kube_drift.Source.Load.{
  begun_of, Backends, load_git, build_of, load_chart_dir, load_overlay, load,
}

-- What acts by no noted call.
module _ {S V : Type 0} {view : List Call → V} (os : Os S) (charts : Charts S) where
  pub Keeps-update_dependencies :
      (chart_dir repo_dir : Text) (ch : Chart)
      → Keeps view (update_dependencies os charts chart_dir repo_dir ch)
  unfolding update_dependencies
  Keeps-update_dependencies chart_dir repo_dir ch = search keeps_rules depth 9

  Keeps-merge_files :
      (chart_dir : Text) (files : List Text) (vals : Fields)
      → Keeps view (merge_files os charts chart_dir files vals)
  unfolding merge_files
  Keeps-merge_files chart_dir [] vals = Keeps-pure vals
  Keeps-merge_files chart_dir (vf ∷ files) vals =
      let next = λ (m : Fields). Keeps-merge_files chart_dir files (merge_values vals m) in
      Keeps-bind _ _ (search keeps_rules)
        (λ p. Keeps-bind _ _ (search keeps_rules) (λ b. Keeps-bind _ _ (search keeps_rules) next))

  pub Keeps-render_helm_chart :
      (chart_dir release_name namespace inline : Text) (files : List Text)
      → Keeps view (render_helm_chart os charts chart_dir release_name namespace inline files)
  unfolding render_helm_chart
  Keeps-render_helm_chart chart_dir release_name namespace inline files =
      search (keeps_rules, Keeps-merge_files) depth 30

  pub Keeps-render_kustomize : (dir : Text) → Keeps view (render_kustomize os charts dir)
  unfolding render_kustomize
  Keeps-render_kustomize dir = search keeps_rules depth 9

module _ {S V : Type 0} {view : List Call → V} (brackets : KeepsBrackets view) (os : Os S)
    (charts : Charts S) where
  -- The directory of a dependency build is removed too.
  Keeps-build_dependencies :
      (chart_dir : Text) → Keeps view (build_dependencies os charts chart_dir)
  unfolding build_dependencies
  Keeps-build_dependencies chart_dir = Keeps-bind _ _ (search keeps_rules) (λ ch.
      brackets.of_bracket _ _ _ _ _ _ (λ dir. Keeps-update_dependencies os charts chart_dir dir ch))

  Keeps-default_build : (chart_dir : Text) → Keeps view (default_build os charts chart_dir)
  unfolding default_build
  Keeps-default_build chart_dir = search (keeps_rules, Keeps-build_dependencies)

  -- A build that was abandoned has kept the view, so far as it has come.
  Keeps-run_build_deps :
      (build : Text → Exec S Outcome) (begun : Progress → Text → Exec S (Unit {0}))
      (chart_dir : Text)
      → Keeps view (build chart_dir)
      → ((s : S) (e : Error) (p : Progress)
          → (charts.cancelled s).0 ≡ some (e, p)
          → Keeps view (begun p chart_dir))
      → Keeps view (run_build_deps os charts build begun chart_dir)
  unfolding run_build_deps ask ◌>>=◌
  Keeps-run_build_deps build begun chart_dir kb abandoned = record {
    at = λ m. elim (Option-cases (charts.cancelled m.world).0) [
      | inl going ↦ rw going ((Keeps-bind _ _ kb (λ o. Keeps-lift (reply o))).at _)
      | inr ((e, p), done) ↦ rw done (
          (Keeps-bind _ _ (Keeps-attempt _ (abandoned m.world e p done))
              (λ a. Keeps-lift (canceled e))).at
            _)
    ];
  }

  -- A view that sees no directory is kept however far a build has come.
  pub Keeps-begun_build :
      ((r : Result Text) (cs : List Call) → view (made_dir r ∷ cs) ≡ view cs)
      → (p : Progress) (chart_dir : Text) → Keeps view (begun_build os charts p chart_dir)
  unfolding begun_build begun_made begun_in
  Keeps-begun_build unseen unbegun dir = Keeps-pure tt
  Keeps-begun_build unseen loaded dir = search keeps_rules
  Keeps-begun_build unseen made dir = search (keeps_rules, unseen) depth 9
  Keeps-begun_build unseen configured dir = search (keeps_rules, unseen) depth 9
  Keeps-begun_build unseen updated dir =
      search (keeps_rules, unseen, Keeps-update_dependencies) depth 9
  Keeps-begun_build unseen ended dir = Keeps-build_dependencies dir

-- The functions that a test may inject keep the view; the controller injects none but the cloner.
abbrev pub BuildKeeps : {S V : Type 0} → (List Call → V) → Option (Text → Exec S Outcome) → Type 0
BuildKeeps view none = Unit
BuildKeeps view (some build) = (chart_dir : Text) → Keeps view (build chart_dir)

abbrev pub IsTidy : {S V : Type 0} → (List Call → V) → Source S → Type 0
IsTidy view (bytes t) = Unit
IsTidy view (git g) = CloneKeeps view g.clone
IsTidy view (helm h) = CloneKeeps view h.clone × BuildKeeps view h.build_deps
IsTidy view (kustomize k) = CloneKeeps view k.clone
IsTidy view (target_filter src names sel) = IsTidy view src

-- The clones and the injected build of a source keep the view.
abbrev pub IsQuiet : {S V : Type 0} → Backends S → (List Call → V) → Source S → Type 0
IsQuiet b view (bytes t) = Unit
IsQuiet b view (git g) =
    (dir : Text) → Keeps view (cloner b.os b.git g.clone dir g.url g.ref g.auth)
IsQuiet b view (helm h) =
    ((dir : Text) → Keeps view (cloner b.os b.git h.clone dir h.url h.ref h.auth))
    × BuildKeeps view h.build_deps
IsQuiet b view (kustomize k) =
    (dir : Text) → Keeps view (cloner b.os b.git k.clone dir k.url k.ref k.auth)
IsQuiet b view (target_filter src names sel) = IsQuiet b view src

pub IsQuiet-intro :
    {S V : Type 0} {view : List Call → V} (b : Backends S) (src : Source S)
    → IgnoresGit view
    → IsTidy view src
    → IsQuiet b view src
IsQuiet-intro b (bytes t) ignores h = tt
IsQuiet-intro b (git g) ignores h =
    λ dir. Keeps-cloner b.os b.git g.clone dir g.url g.ref g.auth ignores h
IsQuiet-intro b (helm c) ignores h =
    (λ dir. Keeps-cloner b.os b.git c.clone dir c.url c.ref c.auth ignores h.0, h.1)
IsQuiet-intro b (kustomize k) ignores h =
    λ dir. Keeps-cloner b.os b.git k.clone dir k.url k.ref k.auth ignores h
IsQuiet-intro b (target_filter src names sel) ignores h = IsQuiet-intro b src ignores h

-- Builds that are abandoned keep the view, so far as they have come.
abbrev pub Abandons : {S V : Type 0} → Backends S → (List Call → V) → Type 0
Abandons {S} b view =
    (s : S) (e : Error) (p : Progress)
    → (b.charts.cancelled s).0 ≡ some (e, p)
    → (dir : Text) → Keeps view (begun_build b.os b.charts p dir)

-- No context is done before a build is.
abbrev pub NeverCancels : {S : Type 0} → Backends S → Type 0
NeverCancels {S} b = (s : S) → (b.charts.cancelled s).0 ≡ none

pub Abandons-never :
    {S V : Type 0} {view : List Call → V} (b : Backends S) → NeverCancels b → Abandons b view
Abandons-never b never s e p done = absurd (cc (never s, done))

-- A view that sees no directory.
pub Abandons-intro :
    {S V : Type 0} {view : List Call → V} (b : Backends S)
    → KeepsBrackets view
    → ((r : Result Text) (cs : List Call) → view (made_dir r ∷ cs) ≡ view cs)
    → Abandons b view
Abandons-intro b brackets unseen s e p done = Keeps-begun_build brackets b.os b.charts unseen p

module _ {S V : Type 0} {view : List Call → V} (brackets : KeepsBrackets view) (b : Backends S)
    (abandons : Abandons b view) where
  Keeps-load_git :
      (g : GitSource S)
      → ((dir : Text) → Keeps view (cloner b.os b.git g.clone dir g.url g.ref g.auth))
      → Keeps view (load_git b g)
  unfolding load_git
  Keeps-load_git g h =
      Keeps-with_checkout b.os b.git g.url g.ref g.path g.auth g.clone _ brackets h
        (λ p. Keeps-ask _)

  Keeps-build :
      (build : Option (Text → Exec S Outcome)) (dir : Text)
      → BuildKeeps view build
      → Keeps view (
          (elim build as (λ _. Text → Exec S Outcome) [
            | none ↦ default_build b.os b.charts
            | some f ↦ f
          ])
            dir)
  Keeps-build none dir h = Keeps-default_build brackets b.os b.charts dir
  Keeps-build (some f) dir h = h dir

  Keeps-begun :
      (build : Option (Text → Exec S Outcome)) (p : Progress) (dir : Text)
      → BuildKeeps view build
      → Keeps view (begun_build b.os b.charts p dir)
      → Keeps view (elim build as (λ _. Exec S (Unit {0})) [
        | none ↦ begun_build b.os b.charts p dir
        | some f ↦ elim p [ ended ↦ do f dir; pure tt | _ ↦ pure tt ]
      ])
  Keeps-begun none p dir h k = k
  Keeps-begun (some f) ended dir h k = Keeps-bind _ _ (h dir) (λ o. Keeps-pure tt)
  Keeps-begun (some f) unbegun dir h k = Keeps-pure tt
  Keeps-begun (some f) loaded dir h k = Keeps-pure tt
  Keeps-begun (some f) made dir h k = Keeps-pure tt
  Keeps-begun (some f) configured dir h k = Keeps-pure tt
  Keeps-begun (some f) updated dir h k = Keeps-pure tt

  Keeps-load_chart_dir :
      (h : HelmSource S) (dir : Text)
      → BuildKeeps view h.build_deps
      → Keeps view (load_chart_dir b h dir)
  unfolding load_chart_dir begun_of
  Keeps-load_chart_dir h dir kb =
      let built = Keeps-build h.build_deps dir kb in
      let run =
        Keeps-run_build_deps brackets b.os b.charts (build_of b h) (begun_of b h) dir built
          (λ s e p done. Keeps-begun h.build_deps p dir kb (abandons s e p done dir)) in
      Keeps-bind _ _ (Keeps-if h.dependency_build _ _ run (Keeps-pure tt)) (λ _.
        Keeps-bind _ _ (Keeps-render_helm_chart b.os b.charts dir _ _ _ _)
          (λ manifests. Keeps-lift _))

  Keeps-load_overlay : (dir : Text) → Keeps view (load_overlay b dir)
  unfolding load_overlay
  Keeps-load_overlay dir =
      Keeps-bind _ _ (Keeps-render_kustomize b.os b.charts dir) (λ manifests. Keeps-lift _)

  pub Keeps-load : (src : Source S) → IsQuiet b view src → Keeps view (load b src)
  unfolding load
  Keeps-load (bytes t) h = Keeps-lift _
  Keeps-load (git g) h = Keeps-load_git g h
  Keeps-load (helm c) h =
      Keeps-with_checkout b.os b.git c.url c.ref c.path c.auth c.clone _ brackets h.0
        (λ dir. Keeps-load_chart_dir c dir h.1)
  Keeps-load (kustomize k) h =
      Keeps-with_checkout b.os b.git k.url k.ref k.path k.auth k.clone _ brackets h
        Keeps-load_overlay
  Keeps-load (target_filter src names sel) h =
      Keeps-bind _ _ (Keeps-load src h) (λ all. Keeps-pure _)

-- Whatever the source and whatever fails, every temporary directory that `load` makes, for the
-- checkout and for a dependency build, has been removed, or its removal tried, when it returns, if no
-- context is done before a dependency build is: an abandoned build may still hold its directory.
-- Injected functions keep to the same.
pub pending-load :
    {S : Type 0} (b : Backends S) (src : Source S)
    → NeverCancels b
    → IsTidy pending src
    → Keeps pending (load b src)
pending-load b src never h =
    Keeps-load pending-KeepsBrackets b (Abandons-never b never) src
      (IsQuiet-intro b src pending-IgnoresGit h)
