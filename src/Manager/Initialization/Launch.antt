-- ===== src/Manager/Initialization/Launch.antt =====
-- The order of a whole run of the process, and how it stops.
use kube_drift.Common.{◌≡◌, refl, inl, inr, Option, none, List, [], ◌∷◌, Text}
use kube_drift.Errors.{Error, Result, ok, err, Result-cases}
use kube_drift.Libraries.{Http}
use kube_drift.Manager.{
  Runtime, Step, registered, added_client_go, added_types, panicked, died, manager_options, wired,
  ◌>>=◌, main,
}
use kube_drift.Manager.CommandLine.{Foreign, Flags, parsed, parse_flags}
use kube_drift.Manager.Startup.{SetUp, stages, serve-SetUp}
use kube_drift.Manager.Initialization.{
  Registries, drifted_resources_name, drifted_resources_labels, scheme_builder, must, or_panic,
  init_metrics, init_scheme, initialize, process,
}

module _ {S : Type 0} where
  -- The steps behind one, two and three registrations.
  abbrev pub measured : Result (Unit {0}) → List (Step S)
  measured answer = registered drifted_resources_name drifted_resources_labels answer ∷ []

  abbrev pub known : Result (Unit {0}) → List (Step S)
  known answer = added_client_go answer ∷ measured (ok tt)

  abbrev pub prepared : Result (Unit {0}) → List (Step S)
  prepared answer = added_types scheme_builder answer ∷ known (ok tt)

module _ {S : Type 0} (http : Http S) (f : Flags) where
  -- A run, by whether it ended the process and by its steps, the latest first.
  pub data Launch (out : Option (Unit {0})) (steps : List (Step S)) : Type 0 where
    unmeasured : (e : Error) → out ≡ none → steps ≡ panicked e ∷ measured (err e) → Launch out steps
    unknown : (e : Error) → out ≡ none → steps ≡ panicked e ∷ known (err e) → Launch out steps
    unprepared : (e : Error) → out ≡ none → steps ≡ panicked e ∷ prepared (err e) → Launch out steps
    unconfigured : out ≡ none → steps ≡ died ∷ prepared (ok tt) → Launch out steps
    launched :
        SetUp (manager_options f) (wired http) stages (prepared (ok tt)) steps out
        → Launch out steps

module _ {S : Type 0} (reg : Registries S) (rt : Runtime S) (http : Http S) (fs : Foreign)
    (args : List Text) (f : Flags) (read : parse_flags fs args ≡ parsed f) where
  main-Launch :
      (s : S)
      → let (out, p) = main rt http fs args (record { world = s; steps = prepared (ok tt) }) in
        Launch http f out p.steps
  unfolding main
  main-Launch s =
      rw (main, read)
        (elim (serve-SetUp rt http f (record { world = s; steps = prepared (ok tt) })) [
          | inl (ended, steps) ↦ unconfigured ended steps
          | inr set_up ↦ launched set_up
        ])

  -- The process registers the gauges, client-go's types and then those of its own group, each once;
  -- the first registration that fails is a panic, and nothing follows. After them come the stages of
  -- the set-up, in order: all succeed, or the error of the first that fails is logged, the process
  -- exits with 1, and nothing follows; without a configuration it ends before them. The arguments are
  -- accepted.
  pub process-Launch :
      (s : S)
      → let (out, p) = process reg rt http fs args (record { world = s; steps = [] }) in
        Launch http f out p.steps
  unfolding process initialize init_metrics init_scheme must or_panic ◌>>=◌
  process-Launch s =
      let (metrics, s1) = reg.register drifted_resources_name drifted_resources_labels s in
      let (client_go, s2) = reg.client_go_add_to_scheme s1 in
      let (types, s3) = reg.add_to_scheme scheme_builder s2 in
      elim (Result-cases metrics) [
        | inr (e, h) ↦ rw h (unmeasured e refl refl)
        | inl (tt, h1) ↦ elim (Result-cases client_go) [
          | inr (e, h) ↦ rw h1 (rw h (unknown e refl refl))
          | inl (tt, h2) ↦ elim (Result-cases types) [
            | inr (e, h) ↦ rw h1 (rw h2 (rw h (unprepared e refl refl)))
            | inl (tt, h3) ↦ rw h1 (rw h2 (rw h3 (main-Launch s3)))
          ]
        ]
      ]
