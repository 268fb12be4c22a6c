-- ===== src/Source/Dependencies/Background.antt =====
-- The two goroutines of `runBuildDeps` in internal/source/helm.go: the one that builds and sends its
-- reply on a buffered channel, and the caller, which selects between the channel and the context.
pub mod Settling
use kube_drift.Common.{Option, none, some, List, [], ◌∷◌}
use kube_drift.Errors.{Error, Result}
use kube_drift.Source.{Outcome}
use kube_drift.Source.Dependencies.{reply, canceled}

-- The goroutine: in the build, at `done <-`, or through.
pub data Worker : Type 0 where
  building ended : Worker
  sending : Result (Unit {0}) → Worker

pub record Race : Type 0 where
  pub worker : Worker
  -- `done`, of capacity one
  pub channel : Option (Result (Unit {0}))
  -- `ctx.Err()`, once the context is done
  pub context : Option Error
  -- what `runBuildDeps` has returned
  pub answer : Option (Result (Unit {0}))

abbrev pub start : Race
start = record { worker = building; channel = none; context = none; answer = none }

pub data Turn : Type 0 where
  build_ends sends context_done takes_context takes_reply : Turn

-- How the build ends and with which error the context is done is up to the world.
module _ (o : Outcome) (e : Error) where
  -- A send waits while the channel is full; a select takes what is ready.
  unfoldable pub step : Turn → Race → Option Race
  step build_ends s = elim s.worker [
    | building ↦ some (record s { worker = sending (reply o) })
    | _ ↦ none
  ]
  step sends s = elim s.worker [
    | sending r ↦ elim s.channel [
      | none ↦ some (record s { worker = ended; channel = some r })
      | some _ ↦ none
    ]
    | _ ↦ none
  ]
  step context_done s = elim s.context [
    | none ↦ some (record s { context = some e })
    | some _ ↦ none
  ]
  step takes_context s = elim s.answer [
    | some _ ↦ none
    | none ↦ elim s.context [
      | some x ↦ some (record s { answer = some (canceled x) })
      | none ↦ none
    ]
  ]
  step takes_reply s = elim s.answer [
    | some _ ↦ none
    | none ↦ elim s.channel [
      | some r ↦ some (record s { channel = none; answer = some r })
      | none ↦ none
    ]
  ]

  -- The events in their order, if each can happen.
  unfoldable pub run : List Turn → Race → Option Race
  unfolding step
  run [] s = some s
  run (ev ∷ events) s = elim (step ev s) [ some s' ↦ run events s' | none ↦ none ]
