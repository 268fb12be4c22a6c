-- ===== src/Controller/Sources/Tidy.antt =====
-- What `buildSource` and `applyTarget` call, and what the source that they build calls.
use kube_drift.Common.{
  ◌≡◌, Option, none, some, List, [], ◌∷◌, Text, is_empty, Option-cases, inl, inr,
}
use kube_drift.Errors.{Error, ok, Result-cases}
use kube_drift.Machine.{Call}
use kube_drift.Machine.Rules.{
  Keeps, Keeps-pure, Keeps-fail, keeps_rules, Yields, Yields-pure, Yields-fail, Yields-if,
  Yields-then,
}
use kube_drift.Libraries.{Kube, Selector}
use kube_drift.Api
use kube_drift.Api.{DriftCheck, Target, config_map, git, helm, kustomize, other}
use kube_drift.Source
use kube_drift.Source.{CloneFunc}
use kube_drift.Source.Checkout.Cleanup.{CloneKeeps}
use kube_drift.Source.Load.{new_target_filter}
use kube_drift.Source.Load.Directories.{IsTidy}
use kube_drift.Controller.Sources.{
  required, resolve_git_auth, source_of_type, build_source, apply_target,
}

module _ {S V : Type 0} {view : List Call → V} (kube : Kube S) where
  Keeps-resolve_git_auth :
      (ns : Text) (spec : Option Api.GitAuth) → Keeps view (resolve_git_auth kube ns spec)
  unfolding resolve_git_auth
  Keeps-resolve_git_auth ns none = Keeps-pure none
  Keeps-resolve_git_auth ns (some spec) = search keeps_rules depth 9

  Keeps-required : {A : Type 0} (e : Error) (o : Option A) → Keeps view (required {S = S} e o)
  Keeps-required e none = Keeps-fail e
  Keeps-required e (some a) = Keeps-pure a

  module _ (cloner : Option (CloneFunc S)) (dc : DriftCheck) where
    Keeps-source_of_type : (t : Api.SourceType) → Keeps view (source_of_type kube cloner dc t)
    unfolding source_of_type
    Keeps-source_of_type config_map = search (keeps_rules, Keeps-required) depth 12
    Keeps-source_of_type git = search (keeps_rules, Keeps-required, Keeps-resolve_git_auth) depth 12
    Keeps-source_of_type helm =
        search (keeps_rules, Keeps-required, Keeps-resolve_git_auth) depth 12
    Keeps-source_of_type kustomize =
        search (keeps_rules, Keeps-required, Keeps-resolve_git_auth) depth 12
    Keeps-source_of_type (other t) = search keeps_rules

    pub Keeps-build_source : Keeps view (build_source kube cloner dc)
    unfolding build_source
    Keeps-build_source = Keeps-source_of_type dc.spec.source.type

pub apply_target-ok :
    {S : Type 0} (kube : Kube S) (src filtered : Source.Source S) (t : Target)
    → apply_target kube src t ≡ ok filtered
    → (sel : Option Selector) × (new_target_filter src t.namespaces sel ≡ filtered)
unfolding apply_target
apply_target-ok kube src filtered t e = elim (Option-cases t.label_selector) [
  | inl unset ↦ (none, cc (rw unset at e))
  | inr (ls, set) ↦ elim (Result-cases (kube.label_selector_as_selector ls)) [
    | inl (sel, parsed) ↦ (some sel, cc (rw parsed at rw set at e))
    | inr (x, refused) ↦ cc (rw refused at rw set at e)
  ]
]

module _ {S V : Type 0} (view : List Call → V) (kube : Kube S) (cloner : Option (CloneFunc S))
    (dc : DriftCheck) (quiet : CloneKeeps view cloner) where
  Yields-source_of_type :
      (t : Api.SourceType) → Yields (IsTidy view) (source_of_type kube cloner dc t)
  unfolding source_of_type
  Yields-source_of_type config_map =
      Yields-then _ _
        (λ cm. Yields-then _ _ (λ found. Yields-then _ _ (λ manifests. Yields-pure _ tt)))
  Yields-source_of_type git = Yields-then _ _ (λ g.
      Yields-if (is_empty g.url) _ _ (λ _. Yields-fail _)
        (λ _. Yields-then _ _ (λ auth. Yields-pure _ quiet)))
  Yields-source_of_type helm = Yields-then _ _ (λ h.
      Yields-if (is_empty h.git.url) _ _ (λ _. Yields-fail _)
        (λ _. Yields-then _ _ (λ auth. Yields-pure _ (quiet, tt))))
  Yields-source_of_type kustomize = Yields-then _ _ (λ k.
      Yields-if (is_empty k.git.url) _ _ (λ _. Yields-fail _)
        (λ _. Yields-then _ _ (λ auth. Yields-pure _ quiet)))
  Yields-source_of_type (other t) = Yields-fail _

  pub Yields-build_source : Yields (IsTidy view) (build_source kube cloner dc)
  unfolding build_source
  Yields-build_source = Yields-source_of_type dc.spec.source.type

  IsTidy-new_target_filter :
      (src : Source.Source S) (names : List Text) (sel : Option Selector)
      → IsTidy view src
      → IsTidy view (new_target_filter src names sel)
  unfolding new_target_filter
  IsTidy-new_target_filter src [] none h = h
  IsTidy-new_target_filter src [] (some sel) h = h
  IsTidy-new_target_filter src (n ∷ names) sel h = h

  pub IsTidy-apply_target :
      (src filtered : Source.Source S) (t : Target)
      → IsTidy view src
      → apply_target kube src t ≡ ok filtered
      → IsTidy view filtered
  IsTidy-apply_target src filtered t h e =
      let (sel, same) = apply_target-ok kube src filtered t e in
      rw same at (IsTidy-new_target_filter src t.namespaces sel h)
