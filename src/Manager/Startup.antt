-- ===== src/Manager/Startup.antt =====
-- The order of the set-up, and how it stops.
use kube_drift.Common.{◌≡◌, refl, ◌⊎◌, inl, inr, ℕ, Option, none, some, List, [], ◌∷◌, Text, text}
use kube_drift.Errors.{Error, Result, ok, err, Result-cases}
use kube_drift.Libraries.{Http}
use kube_drift.Controller.{Reconciler}
use kube_drift.Manager.{
  ManagerOptions, Runtime, Step, managed, fetched, completed, added_healthz, added_readyz, started,
  logged, exited, died, Process, Program, manager_options, wired, ◌>>=◌, checked, or_exit, exit,
  or_died, configured, set_up, serve,
}
use kube_drift.Manager.CommandLine.{Flags}

pub data Stage : Type 0 where
  manager fetcher controller health_check ready_check run : Stage

-- What is logged when a stage fails.
abbrev pub complaint : Stage → Text
complaint manager = text "unable to start manager"
complaint fetcher = text "unable to build cluster fetcher"
complaint controller = text "unable to create controller"
complaint health_check = text "unable to set up health check"
complaint ready_check = text "unable to set up ready check"
complaint run = text "problem running manager"

abbrev pub outcome : {A : Type 0} → Result A → Option Error
outcome (ok a) = none
outcome (err e) = some e

-- The stages in the order of the set-up.
abbrev pub stages : List Stage
stages = manager ∷ fetcher ∷ controller ∷ health_check ∷ ready_check ∷ run ∷ []

module _ {S : Type 0} (options : ManagerOptions) (r : Reconciler S) where
  -- A step that takes a stage, and its error.
  pub data Takes : Stage → Option Error → Step S → Type 0 where
    manages : (answer : Result ℕ) → Takes manager (outcome answer) (managed options answer)
    fetches : (answer : Result ℕ) → Takes fetcher (outcome answer) (fetched answer)
    completes :
        (answer : Result (Unit {0})) → Takes controller (outcome answer) (completed r answer)
    adds_healthz :
        (answer : Result (Unit {0}))
        → Takes health_check (outcome answer) (added_healthz (text "healthz") answer)
    adds_readyz :
        (answer : Result (Unit {0}))
        → Takes ready_check (outcome answer) (added_readyz (text "readyz") answer)
    runs : (answer : Result (Unit {0})) → Takes run (outcome answer) (started answer)

  -- A set-up of the stages that are left, from some steps to some steps, and whether it ends the
  -- process: each stage succeeds, or its error is logged and the process exits with 1.
  pub data SetUp : List Stage → List (Step S) → List (Step S) → Option (Unit {0}) → Type 0 where
    finished : {steps : List (Step S)} → SetUp [] steps steps (some tt)
    passed :
        {stage : Stage} {step : Step S} {rest : List Stage} {before after : List (Step S)}
        {end : Option (Unit {0})}
        → Takes stage none step
        → SetUp rest (step ∷ before) after end
        → SetUp (stage ∷ rest) before after end
    stopped :
        {stage : Stage} {step : Step S} {rest : List Stage} {before : List (Step S)} {e : Error}
        → Takes stage (some e) step
        → SetUp (stage ∷ rest) before (exited 1 ∷ logged (complaint stage) e ∷ step ∷ before) none

  abbrev From : List Stage → Process S → Program S (Unit {0}) → Type 0
  From todo p f = SetUp todo p.steps (f p).1.steps (f p).0

  -- One stage, and the last one.
  module _ {A : Type 0} (stage : Stage) (note : Result A → Step S) (call : S → Result A × S)
      (takes : (answer : Result A) → Takes stage (outcome answer) (note answer))
      (p : Process S) where
    From-checked :
        (todo : List Stage) (k : A → Program S (Unit {0}))
        → ((a : A) (q : Process S) → From todo q (k a))
        → From (stage ∷ todo) p (checked (complaint stage) note call >>= k)
    unfolding ◌>>=◌ checked or_exit exit
    From-checked todo k rest = elim (Result-cases (call p.world).0) [
      | inl (a, h) ↦ rw h (passed (takes (ok a)) (rest a _))
      | inr (e, h) ↦ rw h (stopped (takes (err e)))
    ]

  From-last :
      (stage : Stage) (note : Result (Unit {0}) → Step S) (call : S → Result (Unit {0}) × S)
      → ((answer : Result (Unit {0})) → Takes stage (outcome answer) (note answer))
      → (p : Process S) → From (stage ∷ []) p (checked (complaint stage) note call)
  unfolding checked or_exit exit
  From-last stage note call takes p = elim (Result-cases (call p.world).0) [
    | inl (a, h) ↦ rw h (passed (takes (ok a)) finished)
    | inr (e, h) ↦ rw h (stopped (takes (err e)))
  ]

module _ {S : Type 0} (rt : Runtime S) (http : Http S) (f : Flags) where
  set_up-SetUp :
      (config : ℕ) (p : Process S)
      → SetUp
          (manager_options f)
          (wired http)
          stages
          p.steps
          (set_up rt http f config p).1.steps
          (set_up rt http f config p).0
  unfolding set_up
  set_up-SetUp config p = From-checked _ _ manager _ _ manages p _ _ (λ mgr p.
      From-checked _ _ fetcher _ _ fetches p _ _ (λ made p.
        From-checked _ _ controller _ _ completes p _ _ (λ done p.
          From-checked _ _ health_check _ _ adds_healthz p _ _ (λ done p.
            From-checked _ _ ready_check _ _ adds_readyz p _ _
              (λ done p. From-last _ _ run _ (rt.start mgr) runs p)))))

  or_died-SetUp :
      (config : Option ℕ) (p : Process S)
      → let (out, p') = (or_died config >>= set_up rt http f) p in
        ((out ≡ none) × (p'.steps ≡ died ∷ p.steps))
        ⊎ SetUp (manager_options f) (wired http) stages p.steps p'.steps out
  unfolding or_died ◌>>=◌
  or_died-SetUp none p = inl (refl, refl)
  or_died-SetUp (some config) p = inr (set_up-SetUp config p)

  -- After the configuration is found, the process takes the stages of the set-up in order, each once
  -- and behind those that succeeded, with the options of the flags and the wired reconciler: all six
  -- succeed, or the error of the first that fails is logged, the process exits with 1, and nothing
  -- follows. Without a configuration it ends at once.
  pub serve-SetUp :
      (p : Process S)
      → let (out, p') = serve rt http f p in
        ((out ≡ none) × (p'.steps ≡ died ∷ p.steps))
        ⊎ SetUp (manager_options f) (wired http) stages p.steps p'.steps out
  unfolding serve configured ◌>>=◌
  serve-SetUp p =
      let (config, s) = rt.get_config_or_die p.world in
      or_died-SetUp config (record { world = s; steps = p.steps })
