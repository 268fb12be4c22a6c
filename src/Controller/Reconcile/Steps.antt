-- ===== src/Controller/Reconcile/Steps.antt =====
-- The last steps of a reconcile, each as an ending.
use kube_drift.Common.{ℕ, ◌≡◌, refl, ap, ◌∙◌, List, ◌∷◌, Text, text, ◌||◌, Bool-cases, inl, inr}
use kube_drift.Errors.{Error, Result, ok, err, Result-cases}
use kube_drift.Machine.{Machine, pure, ask, act, continue, effect, ◌>>=◌, ◌>>◌, updated_status}
use kube_drift.Libraries.{DiffResult}
use kube_drift.Api.{DriftCheck, ℤ}
use kube_drift.Metrics.{record_drift, delete}
use kube_drift.Controller.{World, Reconciler}
use kube_drift.Controller.Notifying.{notify, update_status}
use kube_drift.Controller.Reconcile.Effects.{effects}
use kube_drift.Controller.Reconcile.{
  Requeue, mark_not_ready, permanent_fail, record_results, compare_failed,
}
use kube_drift.Controller.Reconcile.Endings.{
  after_write, deletion, recording, unready, compared, Ending, refused, unsettled, unwritten,
  recorded, Saves,
}

pub delete-ok :
    {S : Type 0} (r : Reconciler S) (w : World S) (name namespace : Text) (m : Machine S)
    → (delete w.gauges r.has_metrics name namespace m).0 ≡ ok tt
unfolding delete effect pure
delete-ok r w name namespace m = elim (Bool-cases r.has_metrics) [
  | inl h ↦ rw h refl
  | inr h ↦ rw h refl
]

module _ {S : Type 0} (r : Reconciler S) (w : World S) (dc : DriftCheck) (interval : ℤ)
    (answers : Result (List DiffResult) → Type 0) where
  delete-effects :
      (m : Machine S)
      → effects (delete w.gauges r.has_metrics dc.name dc.namespace m).1.calls
        ≡ deletion r.has_metrics dc (effects m.calls)
  unfolding delete effect pure
  delete-effects m = elim (Bool-cases r.has_metrics) [ inl h ↦ rw h refl | inr h ↦ rw h refl ]

  -- A status update and what follows it, by what the update answered.
  unready-Ending :
      (reason : Text) (e : Error) (m m1 : Machine S) (answer : Result DriftCheck)
      → effects m1.calls
        ≡ updated_status (unready r w dc reason e) answer
          ∷ deletion r.has_metrics dc (effects m.calls)
      → Ending r w dc interval answers (effects m.calls) (
          continue
            (continue answer (λ _. pure tt) m1).0
            (λ _. pure (record { requeue_after = interval }))
            (continue answer (λ _. pure tt) m1).1)
  unfolding pure
  unready-Ending reason e m m1 (ok d) traced = refused reason e (ok d) refl traced
  unready-Ending reason e m m1 (err x) traced = refused reason e (err x) refl traced

  pub permanent_fail-Ending :
      (reason : Text) (e : Error) (m : Machine S)
      → Ending r w dc interval answers (effects m.calls) (permanent_fail r w dc interval reason e m)
  unfolding permanent_fail update_status ◌>>=◌
  permanent_fail-Ending reason e m =
      rw (delete-ok r w dc.name dc.namespace m)
        (unready-Ending reason e m _ _ (rw (delete-effects m) refl))

  mark_not_ready-effects :
      (reason : Text) (e : Error) (m : Machine S)
      → effects (mark_not_ready r w dc reason e m).1.calls
        ≡ updated_status
            (unready r w dc reason e)
            (w.kube.update_status (unready r w dc reason e) m.world).0
          ∷ effects m.calls
  unfolding mark_not_ready update_status ◌>>=◌
  mark_not_ready-effects reason e m =
      elim (Result-cases (w.kube.update_status (unready r w dc reason e) m.world).0) [
        | inl (d, written) ↦ rw written refl
        | inr (x, failed) ↦ rw failed refl
      ]

  pub compare_failed-Ending :
      (e : Error) (m : Machine S)
      → answers (err e)
      → Ending r w dc interval answers (effects m.calls) (compare_failed r w dc interval e m)
  unfolding compare_failed mark_not_ready update_status ◌>>=◌
  compare_failed-Ending e m ans =
      elim (Bool-cases (w.kube.is_forbidden e || w.kube.is_unauthorized e)) [
        | inl denied ↦ rw denied (permanent_fail-Ending (text "FetchError") e m)
        | inr other ↦ rw other (
            unsettled e (w.kube.update_status (unready r w dc (text "CompareError") e) m.world).0
              ans other refl (mark_not_ready-effects (text "CompareError") e m))
      ]

  -- The requeue behind the last step, by the step's result.
  abbrev requeued : {A : Type 0} → Result A × Machine S → Result Requeue × Machine S
  requeued (answer, m) = continue answer (λ _. pure (record { requeue_after = interval })) m

  requeued-result :
      {A : Type 0} (answer : Result A) (m : Machine S)
      → ((requeued (answer, m)).0 ≡ after_write answer interval) × ((requeued (answer, m)).1 ≡ m)
  unfolding pure
  requeued-result (ok a) m = (refl, refl)
  requeued-result (err e) m = (refl, refl)

  record_drift-effects :
      (d : DriftCheck) (m : Machine S)
      → let s = d.status.summary in
        let after =
          record_drift w.gauges r.has_metrics d.name d.namespace s.changed s.new s.deleted
            s.unchanged m in
        (after.0 ≡ ok tt) × (effects after.1.calls ≡ recording r.has_metrics d (effects m.calls))
  unfolding record_drift effect pure ◌>>=◌
  record_drift-effects d m = elim (Bool-cases r.has_metrics) [
    | inl h ↦ rw h (refl, refl)
    | inr h ↦ rw h (refl, refl)
  ]

  updated-Ending :
      (results : List DiffResult) (now : ℕ) (m m1 : Machine S) (answer : Result DriftCheck)
      → answers (ok results)
      → Saves w (compared r w dc results now) answer
      → effects m1.calls ≡ updated_status (compared r w dc results now) answer ∷ effects m.calls
      → Ending r w dc interval answers (effects m.calls) (
          continue answer
            (λ d. do
              let s = d.status.summary
              record_drift w.gauges r.has_metrics d.name d.namespace s.changed s.new s.deleted
                  s.unchanged
              notify r w d
              pure (record { requeue_after = interval }))
            m1)
  unfolding ◌>>=◌
  updated-Ending results now m m1 (err e) ans saved traced = unwritten results now e ans refl traced
  updated-Ending results now m m1 (ok d) ans saved traced =
      let s = d.status.summary in
      let (done, seen) = record_drift-effects d m1 in
      let m2 =
        (record_drift w.gauges r.has_metrics d.name d.namespace s.changed s.new s.deleted
          s.unchanged m1).1 in
      let told = notify r w d m2 in
      let (result, kept) = requeued-result told.0 told.1 in
      rw done (
        recorded results now d m2 ans saved (seen ∙ ap (recording r.has_metrics d) traced) result
          (ap (λ x. effects x.calls) kept))

  pub record_results-Ending :
      (results : List DiffResult) (m : Machine S)
      → answers (ok results)
      → Ending r w dc interval answers (effects m.calls) (record_results r w dc interval results m)
  unfolding record_results update_status ask act ◌>>=◌
  record_results-Ending results m ans =
      let s = (w.kube.now m.world).1 in
      updated-Ending results (w.kube.now m.world).0 m _ _ ans (s, refl) refl
