-- ===== src/Controller/Reconcile/Whole.antt =====
-- The whole reconcile of a request: its ending, and when it runs again.
use kube_drift.Common.{
  ℕ, zero, suc, ◌⊎◌, ◌≡◌, refl, sym, ◌∙◌, Bool, true, false, List, text, if◌then◌else◌, Bool-cases,
  inl, inr,
}
use kube_drift.Errors.{Error, Result, ok, err, Result-cases}
use kube_drift.Machine.{Machine, Call, Exec, ask, continue, ◌>>=◌}
use kube_drift.Libraries.{DiffResult, NamespacedName}
use kube_drift.Api.{DriftCheck, ℤ, pos, negsuc}
use kube_drift.Source.{Source}
use kube_drift.Source.Load.{load}
use kube_drift.Source.Checkout.Cleanup.{CloneKeeps}
use kube_drift.Source.Load.Directories.{Abandons-intro, IsTidy, IsQuiet-intro, Keeps-load}
use kube_drift.Controller.{World, Reconciler}
use kube_drift.Controller.Notifying.{notify}
use kube_drift.Controller.Sources.{build_source, apply_target}
use kube_drift.Controller.Sources.Tidy.{
  Keeps-build_source, Yields-build_source, IsTidy-apply_target,
}
use kube_drift.Controller.Reconcile.Effects.{
  effects, effects-IgnoresGit, effects-KeepsBrackets, EngineKeeps,
}
use kube_drift.Controller.Reconcile.{
  Requeue, compare_source, evaluate, reconcile_found, reconcile, no_requeue, default_interval,
  interval_or_default,
}
use kube_drift.Controller.Reconcile.Endings.{
  Answers, Ending, refused, unsettled, unwritten, recorded, after_write,
}
use kube_drift.Controller.Reconcile.Steps.{
  delete-ok, permanent_fail-Ending, compare_failed-Ending, record_results-Ending,
}

module _ {S : Type 0} (r : Reconciler S) (w : World S) (dc : DriftCheck) (interval : ℤ)
    (answers : Result (List DiffResult) → Type 0) where
  Ending-if :
      (b : Bool) (f g : Exec S Requeue) (es : List Call) (m : Machine S)
      → Ending r w dc interval answers es (f m)
      → Ending r w dc interval answers es (g m)
      → Ending r w dc interval answers es ((if b then f else g) m)
  Ending-if true f g es m by_f by_g = by_f
  Ending-if false f g es m by_f by_g = by_g

  module _ (quiet : CloneKeeps effects r.git_cloner)
      (engine : EngineKeeps effects w.backends.diff) where
    compare_source-Ending :
        (src : Source S) (m : Machine S)
        → IsTidy effects src
        → ((answer : Result (List DiffResult))
            → (w.backends.diff.engine_run (load w.backends src) m).0 ≡ answer
            → answers answer)
        → Ending r w dc interval answers (effects m.calls) (compare_source r w dc interval src m)
    unfolding compare_source ◌>>=◌
    compare_source-Ending src m tidy ans =
        let run = w.backends.diff.engine_run (load w.backends src) in
        let m1 = (run m).1 in
        let abandons = Abandons-intro w.backends effects-KeepsBrackets (λ r cs. refl) in
        let quiet_load = IsQuiet-intro w.backends src effects-IgnoresGit tidy in
        let kept =
          (engine _ (Keeps-load effects-KeepsBrackets w.backends abandons src quiet_load)).at m in
        elim (Result-cases (run m).0) [
          | inl (rs, answered) ↦ rw answered (
              rw kept at
                (record_results-Ending r w dc interval answers rs m1 (ans (ok rs) answered)))
          | inr (e, failed) ↦
              rw failed (
                rw kept at
                  (compare_failed-Ending r w dc interval answers e m1 (ans (err e) failed)))
        ]

module _ {S : Type 0} (r : Reconciler S) (w : World S) (dc : DriftCheck) (interval : ℤ)
    (quiet : CloneKeeps effects r.git_cloner) (engine : EngineKeeps effects w.backends.diff) where
  evaluate-Ending :
      (answers : Result (List DiffResult) → Type 0) (m : Machine S)
      → ((answer : Result (List DiffResult)) → Answers r w dc m answer → answers answer)
      → Ending r w dc interval answers (effects m.calls) (evaluate r w dc interval m)
  unfolding evaluate ◌>>=◌
  evaluate-Ending answers m ans =
      let m1 = (build_source w.kube r.git_cloner dc m).1 in
      let kept : effects m1.calls ≡ effects m.calls =
        (Keeps-build_source {view = effects} w.kube r.git_cloner dc).at m in
      let tidy = (Yields-build_source effects w.kube r.git_cloner dc quiet).at m in
      let refuse = permanent_fail-Ending r w dc interval answers in
      elim (Result-cases (build_source w.kube r.git_cloner dc m).0) [
        | inr (e, failed) ↦ rw failed (rw kept at (refuse (text "SourceError") e m1))
        | inl (src, built) ↦ elim (Result-cases (apply_target w.kube src dc.spec.target)) [
          | inr (e, invalid) ↦
              rw built (rw (continue, invalid) (rw kept at (refuse (text "InvalidTarget") e m1)))
          | inl (filtered, applied) ↦
              let clean =
                IsTidy-apply_target effects w.kube r.git_cloner dc quiet src filtered dc.spec.target
                  (tidy src built) applied in
              let ended =
                compare_source-Ending r w dc interval answers quiet engine filtered m1 clean
                  (λ answer e. ans answer (src, filtered, built, applied, e)) in
              rw built (rw (continue, applied) (rw kept at ended))
        ]
      ]

-- The reconcile of a check that exists ends in one of the ways of `Ending`, with the interval of its
-- spec or five minutes. The engine calls nothing but the source's `Load`, and an injected clone
-- calls nothing of the reconciler's.
pub reconcile_found-Ending :
    {S : Type 0} (r : Reconciler S) (w : World S) (dc : DriftCheck)
    → CloneKeeps effects r.git_cloner
    → EngineKeeps effects w.backends.diff
    → (m : Machine S)
    → Ending r w dc
        (interval_or_default dc.spec.interval)
        (Answers r w dc m)
        (effects m.calls)
        (reconcile_found r w dc m)
unfolding reconcile_found
reconcile_found-Ending r w dc quiet engine m =
    let interval = interval_or_default dc.spec.interval in
    Ending-if r w dc interval (Answers r w dc m) r.has_fetcher (evaluate r w dc interval) _
      (effects m.calls) m
      (evaluate-Ending r w dc interval quiet engine (Answers r w dc m) m (λ answer a. a))
      (permanent_fail-Ending r w dc interval (Answers r w dc m) _ _ m)

abbrev pub IsPositive : ℤ → Type 0
IsPositive i = (n : ℕ) × (i ≡ pos (suc n))

interval-cases :
    (i : ℤ)
    → (n : ℕ) × (interval_or_default i ≡ pos (suc n))
      × ((i ≡ pos (suc n)) ⊎ (pos (suc n) ≡ default_interval) × ¬ IsPositive i)
unfolding interval_or_default
interval-cases (pos zero) = (299_999_999_999, refl, inr (refl, λ p. cc (p.1)))
interval-cases (pos (suc n)) = (n, refl, inl refl)
interval-cases (negsuc n) = (299_999_999_999, refl, inr (refl, λ p. cc (p.1)))

after_write-ok :
    {A : Type 0} (answer : Result A) (interval : ℤ) (q : Requeue)
    → after_write answer interval ≡ ok q
    → q.requeue_after ≡ interval
after_write-ok (ok a) interval q e = cc
after_write-ok (err x) interval q e = cc

-- Whatever the ending, a requeue is after the interval.
Ending-requeue :
    {S : Type 0} (r : Reconciler S) (w : World S) (dc : DriftCheck) (interval : ℤ)
    (answers : Result (List DiffResult) → Type 0) (es : List Call)
    (out : Result Requeue × Machine S) (q : Requeue)
    → Ending r w dc interval answers es out
    → out.0 ≡ ok q
    → q.requeue_after ≡ interval
Ending-requeue r w dc interval answers es out q (refused _ _ answer e _) h =
    after_write-ok answer interval q (sym e ∙ h)
Ending-requeue r w dc interval answers es out q (unsettled _ _ _ _ e _) h = cc
Ending-requeue r w dc interval answers es out q (unwritten _ _ _ _ e _) h = cc
Ending-requeue r w dc interval answers es out q (recorded _ _ dc' m _ _ _ e _) h =
    after_write-ok (notify r w dc' m).0 interval q (sym e ∙ h)

-- How a reconcile of a request is run again, by what the lookup of the check gave.
pub data Requeues {S : Type 0} (w : World S) (got : Result DriftCheck)
    : Result Requeue → Type 0 where
  -- The check is gone: no run.
  gone : (e : Error) → got ≡ err e → w.kube.is_not_found e ≡ true → Requeues w got (ok no_requeue)
  -- The lookup failed otherwise: its error.
  unread : (e : Error) → got ≡ err e → w.kube.is_not_found e ≡ false → Requeues w got (err e)
  -- After the interval of the spec, or five minutes where that is not positive.
  again :
      (dc : DriftCheck) (n : ℕ) (q : Requeue)
      → got ≡ ok dc
      → q.requeue_after ≡ pos (suc n)
      → (dc.spec.interval ≡ pos (suc n))
        ⊎ (pos (suc n) ≡ default_interval) × ¬ IsPositive dc.spec.interval
      → Requeues w got (ok q)
  failed : (dc : DriftCheck) (e : Error) → got ≡ ok dc → Requeues w got (err e)

found-Requeues :
    {S : Type 0} (r : Reconciler S) (w : World S) (dc : DriftCheck) (got : Result DriftCheck)
    (m : Machine S)
    → CloneKeeps effects r.git_cloner
    → EngineKeeps effects w.backends.diff
    → got ≡ ok dc
    → Requeues w got (reconcile_found r w dc m).0
found-Requeues r w dc got m quiet engine found = elim (Result-cases (reconcile_found r w dc m).0) [
  | inr (e, h) ↦ rw h (failed dc e found)
  | inl (q, h) ↦
      let (n, interval, why) = interval-cases dc.spec.interval in
      let ending = reconcile_found-Ending r w dc quiet engine m in
      rw h (again dc n q found (Ending-requeue r w dc _ _ _ _ q ending h ∙ interval) why)
]

-- A reconcile asks for no run exactly when the check is gone, and then succeeds. If the check cannot
-- be read for another reason, that error is returned. If it is read, the reconcile asks to run after
-- the interval of the spec, or five minutes where that is not positive, or returns an error. The
-- engine calls nothing but the source's `Load`, and an injected clone calls nothing of the
-- reconciler's.
pub reconcile_requeue :
    {S : Type 0} (r : Reconciler S) (w : World S) (req : NamespacedName) (m : Machine S)
    → CloneKeeps effects r.git_cloner
    → EngineKeeps effects w.backends.diff
    → Requeues w (w.kube.get_drift_check req m.world).0 (reconcile r w req m).0
unfolding reconcile ask ◌>>=◌
reconcile_requeue r w req m quiet engine =
    let got = (w.kube.get_drift_check req m.world).0 in
    let m1 = (ask (w.kube.get_drift_check req) m).1 in
    elim (Result-cases got) [
      | inl (dc, found) ↦
          rw (continue, found) (rw found at (found-Requeues r w dc got m1 quiet engine found))
      | inr (e, missing) ↦ elim (Bool-cases (w.kube.is_not_found e)) [
        | inl is_gone ↦
            let done = delete-ok r w req.name req.namespace m1 in
            rw (continue, missing, is_gone, done) (gone e refl is_gone)
        | inr other ↦ rw (continue, missing, other) (unread e refl other)
      ]
    ]
