-- ===== src/Tests/Building.antt =====
-- Examples of the theorems on a Helm source: where it reads, and its dependency build.
use mathlib.Core.List.{append-nil, append_assoc}
use kube_drift.Common.{
  ◌≡◌, refl, ◌∙◌, sym, ap, true, none, some, [], ◌∷◌, ◌++◌, Text, text, has_prefix, trim_space,
  if◌then◌else◌,
}
use kube_drift.Errors.{Error, Result, ok, external}
use kube_drift.Machine.{◌>>=◌}
use kube_drift.Libraries.{Os}
use kube_drift.Source
use kube_drift.Source.{returned}
use kube_drift.Source.Charts.{made, Charts}
use kube_drift.Source.Checkout.Paths.{Confines}
use kube_drift.Source.Dependencies.{begun_build, canceled}
use kube_drift.Source.Dependencies.Background.{
  Race, building, ended, start, build_ends, sends, context_done, takes_context, run,
}
use kube_drift.Source.Dependencies.Background.Settling.{Settles, run-Settles}
use kube_drift.Source.Checkout.Cleanup.{leaked}
use kube_drift.Source.Clone.{git_clone}
use kube_drift.Source.Dependencies.{register}
use kube_drift.Source.Load.{Backends, load}
use kube_drift.Source.Load.Leaks.{leaked-load}
use kube_drift.Source.Load.Confined.{Readers, AgreesAt, elsewhere, load-confined}
use kube_drift.Tests.Fixtures.{S, refused}
use kube_drift.Tests.Fixtures

abbrev os : Os S
os = record Fixtures.os {
  read_file = λ f s. (ok (text "replicas: 2"), s);
  secure_join = λ root sub s. (ok (root ++ (text "/" ++ sub)), s);
}

abbrev charts : Charts S
charts = record Fixtures.charts {
  load_chart = λ dir s. (ok (record { handle = 1; dependencies = []; crds = [] }), s);
}

abbrev backends : Backends S
backends = record Fixtures.backends { os = os; charts = charts }

abbrev release : Source.Source S
release = Source.helm (record {
  url = text "https://git";
  ref = [];
  path = text "chart";
  release_name = text "web";
  namespace = text "a";
  values = [];
  values_files = text "prod.yaml" ∷ [];
  dependency_build = true;
  auth = none;
  build_deps = none;
  clone = none;
})

abbrev Below : Text → Text → Type 0
Below root p = (rest : Text) × (root ++ rest ≡ p)

Below-trans : (p q s : Text) → Below p q → Below q s → Below p s
Below-trans p q s (r, e) (r', e') = (r ++ r', sym (append_assoc p r r') ∙ ap (λ t. t ++ r') e ∙ e')

os-Confines : Confines os Below
os-Confines = record {
  of_root = λ root. ([], append-nil root);
  of_join = λ root sub p s e. (text "/" ++ sub, cc);
}

-- A file system on which nothing can be read but what is in the checkout.
abbrev guarded : {A : Type 0} → Text → (S → Result A × S) → S → Result A × S
guarded p f = if has_prefix p (text "/tmp/1") then f else λ s. (refused, s)

abbrev readers : Readers S
readers = record {
  read_file = λ p. guarded p (os.read_file p);
  file_source_load = λ p. guarded p (backends.diff.file_source_load p);
  load_chart = λ p. guarded p (charts.load_chart p);
  kustomize_run = λ p. guarded p (charts.kustomize_run p);
  update = λ p config cache client. guarded p (charts.update p config cache client);
}

readers-AgreesAt : (p : Text) → Below (text "/tmp/1") p → AgreesAt backends readers p
unfolding has_prefix
readers-AgreesAt p (rest, e) = rw (← e) (record {
  file = refl;
  directory = refl;
  chart = refl;
  overlay = refl;
  update = λ config cache client. refl;
})

load-confined_example :
    load backends release Fixtures.start ≡ load (elsewhere backends readers) release Fixtures.start
load-confined_example =
    load-confined backends readers Below os-Confines Below-trans (text "/tmp/1") readers-AgreesAt
      Fixtures.start refl release

release-ok : (load backends release Fixtures.start).0 ≡ ok (Fixtures.resource ∷ [])
unfolding load ◌>>=◌ git_clone trim_space has_prefix register
release-ok = refl

leaked-load_example : leaked (load backends release Fixtures.start).1.calls ≡ []
leaked-load_example =
    (leaked-load backends release (tt, tt)).at Fixtures.start (Fixtures.resource ∷ []) release-ok

abbrev deadline : Error
deadline = external [] (text "context deadline exceeded")

-- The caller has its answer, and removes the checkout, while the build still runs in it.
abbrev abandoned : Race
abandoned = record {
  worker = building;
  channel = none;
  context = some deadline;
  answer = some (canceled deadline);
}

abandoned-run :
    run (returned (ok tt)) deadline (context_done ∷ takes_context ∷ []) start ≡ some abandoned
unfolding run
abandoned-run = refl

-- The same run until both are through.
abbrev settled : Race
settled = record abandoned { worker = ended; channel = some (ok tt) }

settled-run :
    run (returned (ok tt)) deadline (context_done ∷ takes_context ∷ build_ends ∷ sends ∷ []) start
    ≡ some settled
unfolding run
settled-run = refl

run-Settles_example :
    Settles
      (returned (ok tt))
      deadline
      os
      charts
      (begun_build os charts)
      made
      (text "/tmp/1/chart")
      Fixtures.start
      4
      settled
run-Settles_example =
    run-Settles (returned (ok tt)) deadline os charts (begun_build os charts) made
      (text "/tmp/1/chart") Fixtures.start (context_done ∷ takes_context ∷ build_ends ∷ sends ∷ [])
      settled settled-run
