-- ===== src/Manager/Invariants.antt =====
-- Invariants of the steps of a process, by induction on the set-up.
use kube_drift.Common.{◌≡◌, refl, inl, inr, ℕ, Option, List, [], ◌∷◌, Text}
use kube_drift.Errors.{Error}
use kube_drift.Libraries.{Http}
use kube_drift.Controller.{Reconciler}
use kube_drift.Manager.{
  ManagerOptions, Runtime, Step, logged, exited, died, Process, Program, manager_options, wired,
  serve, exit, main,
}
use kube_drift.Manager.CommandLine.{Flags, Foreign, Parsed, parsed, helped, rejected, parse_flags}
use kube_drift.Manager.Startup.{Stage, Takes, SetUp, finished, passed, stopped, serve-SetUp}

-- A predicate on steps that the end of a process keeps.
pub record KeptByEnds {S : Type 0} (K : List (Step S) → Type 0) : Type 0 where
  pub of_logged :
      (message : Text) (e : Error) (steps : List (Step S)) → K steps → K (logged message e ∷ steps)
  pub of_exited : (code : ℕ) (steps : List (Step S)) → K steps → K (exited code ∷ steps)
  pub of_died : (steps : List (Step S)) → K steps → K (died ∷ steps)

-- A predicate that the stages of the set-up keep.
abbrev pub KeptByStages :
    {S : Type 0} → (List (Step S) → Type 0) → ManagerOptions → Reconciler S → Type 0
KeptByStages {S} K options r =
    (stage : Stage) (e : Option Error) (step : Step S) (steps : List (Step S))
    → Takes options r stage e step
    → K steps
    → K (step ∷ steps)

module _ {S : Type 0} (K : List (Step S) → Type 0) (ends : KeptByEnds K) where
  SetUp-Invariant :
      (options : ManagerOptions) (r : Reconciler S) (stages : List Stage)
      (before after : List (Step S)) (end : Option (Unit {0}))
      → KeptByStages K options r
      → SetUp options r stages before after end
      → K before
      → K after
  SetUp-Invariant options r _ before _ _ kept finished h = h
  SetUp-Invariant options r _ before after end kept (passed takes rest) h =
      SetUp-Invariant options r _ _ after end kept rest (kept _ _ _ before takes h)
  SetUp-Invariant options r _ before _ _ kept (stopped takes) h =
      ends.of_exited _ _ (ends.of_logged _ _ _ (kept _ _ _ before takes h))

  module _ (rt : Runtime S) (http : Http S) where
    serve-Invariant :
        (f : Flags) (p : Process S)
        → KeptByStages K (manager_options f) (wired http)
        → K p.steps
        → K (serve rt http f p).1.steps
    serve-Invariant f p kept h = elim (serve-SetUp rt http f p) [
      | inl (out, dead) ↦ rw dead (ends.of_died _ h)
      | inr set_up ↦ SetUp-Invariant (manager_options f) (wired http) _ _ _ _ kept set_up h
    ]

    -- What the stages keep for the flags of the arguments holds after a run of the process.
    pub main-Invariant :
        (fs : Foreign) (args : List Text) (s : S)
        → ((f : Flags)
            → parse_flags fs args ≡ parsed f
            → KeptByStages K (manager_options f) (wired http))
        → K []
        → K (main rt http fs args (record { world = s; steps = [] })).1.steps
    unfolding main exit
    main-Invariant fs args s kept h = go (parse_flags fs args) kept
      where
        go :
            (read : Parsed)
            → ((f : Flags) → read ≡ parsed f → KeptByStages K (manager_options f) (wired http))
            → K
                ((elim read as (λ _. Program S (Unit {0})) [
                  | parsed f ↦ serve rt http f
                  | helped ↦ exit 0
                  | rejected e ↦ exit 2
                ])
                  (record { world = s; steps = [] })).1.steps
        go (parsed f) kept = serve-Invariant f _ (kept f refl) h
        go helped kept = ends.of_exited 0 _ h
        go (rejected e) kept = ends.of_exited 2 _ h
