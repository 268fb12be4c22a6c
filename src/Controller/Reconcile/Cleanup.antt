-- ===== src/Controller/Reconcile/Cleanup.antt =====
-- What a whole reconcile leaves of a view that sees none of its effects, such as the temporary
-- directories.
use kube_drift.Common.{◌≡◌, refl, ◌∙◌, Bool, true, false, ℕ, List, ◌∷◌, Text, text, ◌||◌, inl, inr}
use kube_drift.Errors.{Error, Result, ok, err, Result-cases}
use kube_drift.Machine.{Call, attempt, updated_status, set_gauge, deleted_gauges, sent, ◌>>=◌}
use kube_drift.Machine.Rules.{
  Keeps, Keeps-bind, Keeps-pure, Keeps-fail, Keeps-if, Keeps-ask, Keeps-act, Keeps-attempt,
  Keeps-result, keeps_rules,
}
use kube_drift.Libraries.{NamespacedName, DiffResult}
use kube_drift.Api.{DriftCheck, ℤ}
use kube_drift.Notify
use kube_drift.Metrics.{set_status, record_drift, delete}
use kube_drift.Source.{Source}
use kube_drift.Source.Clone.Calls.{IgnoresGit}
use kube_drift.Source.Checkout.Cleanup.{CloneKeeps, KeepsBrackets, pending}
use kube_drift.Source.Load.Directories.{Abandons, IsTidy, IsQuiet-intro, Keeps-load}
use kube_drift.Controller.{World, Reconciler}
use kube_drift.Controller.Notifying.{
  update_status, announce, webhooks_of, notify, is_silent, is_resolved, hash_of,
}
use kube_drift.Controller.Notifying.Calls.{IgnoresNotices, NotifierKeeps}
use kube_drift.Controller.Notifying.Loop.{Keeps-deliver}
use kube_drift.Controller.Summary.{build_event}
use kube_drift.Controller.Sources.{build_source, apply_target}
use kube_drift.Controller.Sources.Tidy.{
  Keeps-build_source, Yields-build_source, IsTidy-apply_target,
}
use kube_drift.Controller.Reconcile.Effects.{EngineKeeps}
use kube_drift.Controller.Reconcile.{
  mark_not_ready, permanent_fail, record_results, compare_failed, compare_source, evaluate,
  reconcile_found, reconcile,
}

-- A view that sees no status write, gauge, webhook or event.
pub record IgnoresEffects {V : Type 0} (view : List Call → V) : Type 0 where
  pub notices : IgnoresNotices view
  pub of_updated_status :
      (dc : DriftCheck) (answer : Result DriftCheck) (cs : List Call)
      → view (updated_status dc answer ∷ cs) ≡ view cs
  pub of_set_gauge :
      (name namespace status : Text) (n : ℕ) (cs : List Call)
      → view (set_gauge name namespace status n ∷ cs) ≡ view cs
  pub of_deleted_gauges :
      (name namespace : Text) (cs : List Call) → view (deleted_gauges name namespace ∷ cs) ≡ view cs
  pub of_sent :
      (t : Notify.Webhook) (ev : Notify.Event) (answer : Result (Unit {0})) (cs : List Call)
      → view (sent t ev answer ∷ cs) ≡ view cs

module _ {S V : Type 0} {view : List Call → V} (ignores : IgnoresEffects view) (r : Reconciler S)
    (w : World S) where
  Keeps-update_status : (dc : DriftCheck) → Keeps view (update_status r w dc)
  unfolding update_status
  Keeps-update_status dc = Keeps-act _ _ (ignores.of_updated_status dc)

  Keeps-record_drift :
      (metrics : Bool) (name namespace : Text) (a b c d : ℕ)
      → Keeps view (record_drift w.gauges metrics name namespace a b c d)
  unfolding record_drift set_status
  Keeps-record_drift false name namespace a b c d = Keeps-pure tt
  Keeps-record_drift true name namespace a b c d =
      search (keeps_rules, ignores.of_set_gauge) depth 12

  Keeps-delete :
      (metrics : Bool) (name namespace : Text) → Keeps view (delete w.gauges metrics name namespace)
  unfolding delete
  Keeps-delete false name namespace = Keeps-pure tt
  Keeps-delete true name namespace = search (keeps_rules, ignores.of_deleted_gauges)

  Keeps-mark_not_ready :
      (dc : DriftCheck) (reason : Text) (e : Error) → Keeps view (mark_not_ready r w dc reason e)
  unfolding mark_not_ready
  Keeps-mark_not_ready dc reason e = Keeps-bind _ _ (Keeps-update_status _) (λ d. Keeps-pure tt)

  Keeps-permanent_fail :
      (dc : DriftCheck) (interval : ℤ) (reason : Text) (e : Error)
      → Keeps view (permanent_fail r w dc interval reason e)
  unfolding permanent_fail
  Keeps-permanent_fail dc interval reason e =
      Keeps-bind _ _ (Keeps-delete r.has_metrics dc.name dc.namespace)
        (λ d. Keeps-bind _ _ (Keeps-mark_not_ready dc reason e) (λ d. Keeps-pure _))

  Keeps-compare_failed :
      (dc : DriftCheck) (interval : ℤ) (e : Error) → Keeps view (compare_failed r w dc interval e)
  unfolding compare_failed
  Keeps-compare_failed dc interval e =
      Keeps-if (w.kube.is_forbidden e || w.kube.is_unauthorized e) _ _
        (Keeps-permanent_fail dc interval _ e)
        (Keeps-bind _ _ (Keeps-attempt _ (Keeps-mark_not_ready dc _ e)) (λ d. Keeps-fail e))

  module _ (quiet : NotifierKeeps view r.notifier) where
    Keeps-announce :
        (dc : DriftCheck) (hash : Text) (resolved : Bool)
        → Keeps view (announce r w dc hash resolved)
    unfolding announce
    Keeps-announce dc hash resolved =
        Keeps-bind _ _
          (Keeps-deliver ignores.notices ignores.of_sent r w quiet dc.namespace
            (build_event dc resolved) (webhooks_of r w dc) false)
          (λ failed.
            Keeps-if failed _ _ (Keeps-pure tt)
              (Keeps-bind _ _ (Keeps-update_status _) (λ d. Keeps-pure tt)))

    Keeps-notify : (dc : DriftCheck) → Keeps view (notify r w dc)
    unfolding notify
    Keeps-notify dc =
        Keeps-if (is_silent r w dc) _ _ (Keeps-pure tt)
          (Keeps-announce dc (hash_of r w dc) (is_resolved r w dc))

    Keeps-record_results :
        (dc : DriftCheck) (interval : ℤ) (results : List DiffResult)
        → Keeps view (record_results r w dc interval results)
    unfolding record_results
    Keeps-record_results dc interval results = Keeps-bind _ _ (Keeps-ask _) (λ now.
        Keeps-bind _ _ (Keeps-update_status _) (λ d.
          Keeps-bind _ _ (Keeps-record_drift r.has_metrics _ _ _ _ _ _)
            (λ t. Keeps-bind _ _ (Keeps-notify d) (λ t. Keeps-pure _))))

    module _ (brackets : KeepsBrackets view) (abandons : Abandons w.backends view)
        (git : IgnoresGit view) (cloner : CloneKeeps view r.git_cloner)
        (engine : EngineKeeps view w.backends.diff) where
      Keeps-compare_source :
          (dc : DriftCheck) (interval : ℤ) (src : Source S)
          → IsTidy view src
          → Keeps view (compare_source r w dc interval src)
      unfolding compare_source
      Keeps-compare_source dc interval src tidy =
          let loaded =
            Keeps-load brackets w.backends abandons src (IsQuiet-intro w.backends src git tidy) in
          Keeps-bind _ _ (Keeps-attempt _ (engine _ loaded)) (λ results.
            Keeps-result results (record_results r w dc interval) (compare_failed r w dc interval)
              (Keeps-record_results dc interval) (Keeps-compare_failed dc interval))

      -- What follows `buildSource`.
      Keeps-built :
          (dc : DriftCheck) (interval : ℤ) (src : Source S)
          → IsTidy view src
          → Keeps view (elim (apply_target w.kube src dc.spec.target) [
            | err e ↦ permanent_fail r w dc interval (text "InvalidTarget") e
            | ok filtered ↦ compare_source r w dc interval filtered
          ])
      Keeps-built dc interval src tidy =
          elim (Result-cases (apply_target w.kube src dc.spec.target)) [
            | inl (filtered, applied) ↦ rw applied (
                Keeps-compare_source dc interval filtered (
                  IsTidy-apply_target view w.kube r.git_cloner dc cloner src filtered dc.spec.target
                    tidy applied))
            | inr (e, invalid) ↦ rw invalid (Keeps-permanent_fail dc interval _ e)
          ]

      Keeps-evaluate : (dc : DriftCheck) (interval : ℤ) → Keeps view (evaluate r w dc interval)
      unfolding evaluate ◌>>=◌ attempt
      Keeps-evaluate dc interval = record {
        at = λ m.
            let built = build_source w.kube r.git_cloner dc m in
            let kept = (Keeps-build_source {view = view} w.kube r.git_cloner dc).at m in
            let tidy = (Yields-build_source view w.kube r.git_cloner dc cloner).at m in
            elim (Result-cases built.0) [
              | inl (src, e) ↦ rw e ((Keeps-built dc interval src (tidy src e)).at built.1 ∙ kept)
              | inr (x, e) ↦ rw e ((Keeps-permanent_fail dc interval _ x).at built.1 ∙ kept)
            ];
      }

      -- What follows the lookup of the check.
      pub Keeps-reconcile : (req : NamespacedName) → Keeps view (reconcile r w req)
      unfolding reconcile reconcile_found
      Keeps-reconcile req = Keeps-bind _ _ (Keeps-attempt _ (Keeps-ask _)) (λ got.
          Keeps-result got (reconcile_found r w) _
            (λ dc. Keeps-if r.has_fetcher _ _ (Keeps-evaluate dc _) (Keeps-permanent_fail dc _ _ _))
            (λ e.
              Keeps-if (w.kube.is_not_found e) _ _
                (Keeps-bind _ _ (Keeps-delete r.has_metrics req.name req.namespace)
                  (λ d. Keeps-pure _))
                (Keeps-fail e)))

pub pending-IgnoresEffects : IgnoresEffects pending
pending-IgnoresEffects = record {
  notices = record { of_emitted = λ t r e cs. refl; of_posted = λ q cs. refl };
  of_updated_status = λ dc answer cs. refl;
  of_set_gauge = λ name namespace status n cs. refl;
  of_deleted_gauges = λ name namespace cs. refl;
  of_sent = λ t ev answer cs. refl;
}
