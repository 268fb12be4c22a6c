-- ===== src/Tests/Recording.antt =====
-- Examples of the theorems on the gauges, the credentials of a source and the repositories' names.
use kube_drift.Common.{
  ℕ, ◌≡◌, refl, true, false, Option, none, some, [], ◌∷◌, Text, text, ◌==◌, ◌&&◌, trim_line_end,
  if◌then◌else◌,
}
use kube_drift.Machine.{Machine, ◌>>=◌}
use kube_drift.Machine.Rules.{Keeps, Yields}
use kube_drift.Libraries.{GaugeVec, Kube}
use kube_drift.Api
use kube_drift.Api.{DriftCheck, git, bearer}
use kube_drift.Metrics.{record_drift, delete}
use kube_drift.Metrics.Gauges.{IsGaugeVec, Shows, record_drift-Shows}
use kube_drift.Controller.Sources.{build_source, apply_target}
use kube_drift.Controller.Sources.Credentials.{Matches, build_source-Matches}
use kube_drift.Controller.Secrets.{credentials}
use kube_drift.Controller.Secrets.Cloning.{anonymous_clones}
use kube_drift.Controller.Sources.Anonymity.{anonymous_clones-load}
use kube_drift.Source
use kube_drift.Source.Load.{load, new_target_filter}
use kube_drift.Errors.{ok}
use kube_drift.Tests.Fixtures.{S, check, kube, backends, start}

abbrev Store : Type 0
Store = Text → Text → Text → Option ℕ

abbrev gauges : GaugeVec Store
gauges = record {
  set = λ n ns st v s. λ a b c. if n == a && ns == b && st == c then some v else s a b c;
  delete_partial_match = λ n ns s. λ a b c. if n == a && ns == b then none else s a b c;
  value = λ n ns st s. s n ns st;
}

gauges-IsGaugeVec : IsGaugeVec gauges
gauges-IsGaugeVec = record {
  of_set = λ n ns st n' ns' st' v s. refl;
  of_delete = λ n ns n' ns' st' s. refl;
}

abbrev empty : Machine Store
empty = record { world = λ n ns st. none; calls = [] }

record_drift-Shows_example :
    let m1 = (record_drift gauges true (text "check") (text "a") 1 2 3 4 empty).1 in
    let m2 = (delete gauges true (text "check") (text "a") m1).1 in
    Shows gauges m1.world (text "check") (text "a") 1 2 3 4
    × ((st : Text) → m2.world (text "check") (text "a") st ≡ none)
    × ((n' ns' st : Text)
        → (text "check" == n' && text "a" == ns') ≡ false
        → m2.world n' ns' st ≡ none)
record_drift-Shows_example =
    record_drift-Shows gauges gauges-IsGaugeVec (text "check") (text "a") 1 2 3 4 empty

abbrev by_token : Api.GitSource
by_token = record {
  url = text "https://git";
  ref = [];
  path = [];
  auth = some (record { type = bearer; secret_ref = record { name = text "token" } });
}

abbrev git_check : DriftCheck
git_check = record check {
  spec = record check.spec {
    source = record check.spec.source { type = git; git = some by_token };
  };
}

build_source-Matches_example :
    Yields
      (Matches kube none git_check git git_check.spec.source)
      (build_source kube none git_check)
build_source-Matches_example = build_source-Matches kube none git_check

-- A cluster whose Secret has a token.
abbrev token_kube : Kube S
token_kube = record kube {
  get_secret = λ at s. (ok (record { entries = (text "bearerToken", text "abc") ∷ [] }), s);
}

abbrev token_source : Source.Source S
token_source = Source.git (record {
  url = text "https://git";
  ref = [];
  path = [];
  auth = some (record { basic = none; bearer = text "abc"; ssh = none });
  clone = none;
})

token_source-ok : (build_source token_kube none git_check start).0 ≡ ok token_source
unfolding build_source credentials trim_line_end ◌==◌ ◌>>=◌
token_source-ok = refl

token_source-target : apply_target token_kube token_source git_check.spec.target ≡ ok token_source
unfolding apply_target new_target_filter
token_source-target = refl

anonymous_clones-load_example : Keeps anonymous_clones (load backends token_source)
anonymous_clones-load_example =
    anonymous_clones-load backends token_kube git_check
      (record { type = bearer; secret_ref = record { name = text "token" } }) start token_source
      token_source refl token_source-ok token_source-target
