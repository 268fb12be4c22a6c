-- ===== src/Source/Dependencies/Background/Settling.antt =====
-- Every run of the two goroutines of `runBuildDeps` comes to an end, and what it answers.
use kube_drift.Common.{
  ℕ, ◌+◌, ◌≡◌, ◌≢◌, refl, ◌⊎◌, Option-cases, inl, inr, Option, none, some, List, [], ◌∷◌, Text,
  length, arith,
}
use kube_drift.Errors.{Error, Result}
use kube_drift.Machine.{Exec, Machine, pure, ◌>>=◌}
use kube_drift.Libraries.{Os}
use kube_drift.Source.{Outcome}
use kube_drift.Source.Charts.{Progress, Charts}
use kube_drift.Source.Dependencies.{reply, canceled, run_build_deps}
use kube_drift.Source.Dependencies.Background.{
  Worker, building, ended, sending, Race, start, Turn, build_ends, sends, context_done,
  takes_context, takes_reply, step, run,
}

-- The events that are still to come.
abbrev worker_events : Worker → ℕ
worker_events building = 2
worker_events (sending r) = 1
worker_events ended = 0

abbrev one_if_none : {A : Type 0} → Option A → ℕ
one_if_none none = 1
one_if_none (some a) = 0

abbrev events_left : Race → ℕ
events_left s = worker_events s.worker + one_if_none s.context + one_if_none s.answer

Worker-cases :
    (w : Worker) → (w ≡ building) ⊎ ((r : Result (Unit {0})) × (w ≡ sending r)) ⊎ (w ≡ ended)
Worker-cases building = inl refl
Worker-cases (sending r) = inr (inl (r, refl))
Worker-cases ended = inr (inr refl)

module _ (o : Outcome) (e : Error) where
  -- What the goroutine is about to send, or has sent.
  abbrev Sound : Worker → Option (Result (Unit {0})) → Option (Result (Unit {0})) → Type 0
  Sound building channel answer = channel ≡ none
  Sound (sending r) channel answer = (channel ≡ none) × (r ≡ reply o)
  Sound ended none answer = one_if_none answer ≡ 0
  Sound ended (some r) answer = r ≡ reply o

  record IsRace (s : Race) : Type 0 where
    pub worker : Sound s.worker s.channel s.answer
    pub context : (s.context ≡ none) ⊎ (s.context ≡ some e)
    pub answer :
        (s.answer ≡ none)
        ⊎ (s.answer ≡ some (reply o))
        ⊎ ((s.answer ≡ some (canceled e)) × (s.context ≡ some e))

  start-IsRace : IsRace start
  start-IsRace = record { worker = refl; context = inl refl; answer = inl refl }

  step-IsRace : (ev : Turn) (s s' : Race) → IsRace s → step o e ev s ≡ some s' → IsRace s'
  unfolding step
  step-IsRace build_ends s s' h t = ground (arith, h.worker, h.context, h.answer)
  step-IsRace sends s s' h t = ground (arith, h.worker, h.context, h.answer)
  step-IsRace context_done s s' h t = ground (arith, h.worker, h.context, h.answer)
  step-IsRace takes_context s s' h t = ground (arith, h.worker, h.context, h.answer)
  step-IsRace takes_reply s s' h t = ground (arith, h.worker, h.context, h.answer)

  step-events_left :
      (ev : Turn) (s s' : Race) → step o e ev s ≡ some s' → events_left s' + 1 ≡ events_left s
  unfolding step
  step-events_left build_ends s s' t = ground arith
  step-events_left sends s s' t = ground arith
  step-events_left context_done s s' t = ground arith
  step-events_left takes_context s s' t = ground arith
  step-events_left takes_reply s s' t = ground arith

  run-IsRace :
      (events : List Turn) (s s' : Race)
      → IsRace s
      → run o e events s ≡ some s'
      → IsRace s' × (length events + events_left s' ≡ events_left s)
  unfolding run
  run-IsRace [] s s' h t = let same : s ≡ s' = cc in rw (← same) (h, omega arith)
  run-IsRace (ev ∷ events) s s' h t = elim (Option-cases (step o e ev s)) [
    | inl stuck ↦ cc (rw (stuck, run) at t)
    | inr (s1, moved) ↦
        let (fine, left) =
          run-IsRace events s1 s' (step-IsRace ev s s1 h moved) (rw (moved, run) at t) in
        (fine, omega (arith, left, step-events_left ev s s1 moved))
  ]

  -- A context that is done with an error, or is not done, before the build is, which has come so far.
  abbrev choosing : {S : Type 0} → Progress → Charts S → Option Error → Charts S
  choosing p charts none = record charts { cancelled = λ s. (none, s) }
  choosing p charts (some e) = record charts { cancelled = λ s. (some (e, p), s) }

  module _ {S : Type 0} (os : Os S) (charts : Charts S)
      (begun : Progress → Text → Exec S (Unit {0})) (p : Progress) (chart_dir : Text)
      (m : Machine S) where
    -- After `n` events in a state `s`.
    pub record Settles (n : ℕ) (s : Race) : Type 0 where
      pub bounded : n + events_left s ≡ 4
      pub unblocked : (r : Result (Unit {0})) → s.worker ≡ sending r → step o e sends s ≢ none
      pub prompt :
          (x : Error) → s.context ≡ some x → s.answer ≡ none → step o e takes_context s ≢ none
      pub moves :
          ((s.worker ≡ ended) × (s.answer ≢ none))
          ⊎ ((ev : Turn) × (ev ≢ context_done) × (step o e ev s ≢ none))
      pub answers :
          (r : Result (Unit {0}))
          → s.answer ≡ some r
          → (c : Option Error) × ((c ≡ none) ⊎ (c ≡ s.context))
            × ((run_build_deps os (choosing p charts c) (λ _. pure o) begun chart_dir m).0 ≡ r)

    IsRace-prompt :
        (s : Race) (x : Error)
        → s.context ≡ some x
        → s.answer ≡ none
        → step o e takes_context s ≢ none
    unfolding step
    IsRace-prompt s x h a = ground arith

    IsRace-unblocked :
        (s : Race) (r : Result (Unit {0}))
        → IsRace s
        → s.worker ≡ sending r
        → step o e sends s ≢ none
    unfolding step
    IsRace-unblocked s r h w = ground (arith, h.worker)

    IsRace-moves :
        (s : Race)
        → IsRace s
        → ((s.worker ≡ ended) × (s.answer ≢ none))
          ⊎ ((ev : Turn) × (ev ≢ context_done) × (step o e ev s ≢ none))
    unfolding step
    IsRace-moves s h = elim (Worker-cases s.worker) [
      | inl begun ↦ inr (build_ends, (λ p. cc), ground arith)
      | inr (inl (r, waits)) ↦ inr (sends, (λ p. cc), ground (arith, h.worker))
      | inr (inr over) ↦ elim (Option-cases s.answer) [
        | inl none_yet ↦ inr (takes_reply, (λ p. cc), ground (arith, h.worker))
        | inr (r, given) ↦ inl (over, λ p. cc)
      ]
    ]

    IsRace-answers :
        (s : Race) (r : Result (Unit {0}))
        → IsRace s
        → s.answer ≡ some r
        → (c : Option Error) × ((c ≡ none) ⊎ (c ≡ s.context))
          × ((run_build_deps os (choosing p charts c) (λ _. pure o) begun chart_dir m).0 ≡ r)
    unfolding run_build_deps ◌>>=◌
    IsRace-answers s r h a = elim h.answer [
      | inl missing ↦ cc
      | inr (inl replied) ↦ (none, inl refl, cc)
      | inr (inr (stopped, context)) ↦ (some e, inr (cc), cc)
    ]

    -- However the goroutine that builds, the context and the caller of runBuildDeps interleave, a run
    -- has at most four events, and it is never stuck before the goroutine is through and the caller
    -- has its answer: the send never waits, so that no goroutine is left behind, and a caller whose
    -- context is done does not wait for the build. The answer is what `run_build_deps` gives, with the
    -- context done first only if it is done.
    pub run-Settles :
        (events : List Turn) (s : Race) → run o e events start ≡ some s → Settles (length events) s
    run-Settles events s h =
        let (fine, left) = run-IsRace events start s start-IsRace h in
        record {
          bounded = left;
          unblocked = λ r. IsRace-unblocked s r fine;
          prompt = IsRace-prompt s;
          moves = IsRace-moves s fine;
          answers = λ r. IsRace-answers s r fine;
        }
