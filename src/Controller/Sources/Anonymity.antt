-- ===== src/Controller/Sources/Anonymity.antt =====
-- Loads of a check whose source names a Secret.
use kube_drift.Common.{◌≡◌, refl, Option, none, some, List, [], ◌∷◌, Text, is_empty}
use kube_drift.Errors.{ok}
use kube_drift.Machine.{Machine}
use kube_drift.Machine.Rules.{Keeps, Yields, Yields-pure, Yields-fail, Yields-if, Yields-bind}
use kube_drift.Libraries.{Kube, Selector}
use kube_drift.Api
use kube_drift.Api.{DriftCheck, config_map, git, helm, kustomize, other}
use kube_drift.Source
use kube_drift.Source.{GitAuth}
use kube_drift.Source.Checkout.{cloner}
use kube_drift.Source.Checkout.Cleanup.{KeepsBrackets-intro}
use kube_drift.Source.Load.{Backends, new_target_filter, load}
use kube_drift.Source.Load.Directories.{Abandons-intro, IsQuiet, Keeps-load}
use kube_drift.Controller.Secrets.Cloning.{anonymous_clones, anonymous_clones-git_clone}
use kube_drift.Controller.Sources.{source_of_type, build_source, apply_target}
use kube_drift.Controller.Sources.Tidy.{apply_target-ok}
use kube_drift.Controller.Sources.Credentials.{Resolves, Yields-required, Yields-resolve_git_auth}

-- The reference to credentials in the block that the type names.
abbrev pub auth_spec : Api.SourceType → Api.Source → Option Api.GitAuth
auth_spec config_map spec = none
auth_spec git spec = elim spec.git [ none ↦ none | some g ↦ g.auth ]
auth_spec helm spec = elim spec.helm [ none ↦ none | some h ↦ h.git.auth ]
auth_spec kustomize spec = elim spec.kustomize [ none ↦ none | some k ↦ k.git.auth ]
auth_spec (other t) spec = none

module _ {S : Type 0} (b : Backends S) (kube : Kube S) where
  Keeps-authenticated :
      (ns : Text) (spec : Api.GitAuth) (auth : Option GitAuth) (url ref dir : Text)
      → Resolves kube ns (some spec) auth
      → Keeps anonymous_clones (cloner b.os b.git none dir url ref auth)
  unfolding cloner
  Keeps-authenticated ns spec auth url ref dir r =
      let (sec, a, _, same, scheme) = r in
      rw same (anonymous_clones-git_clone b.os b.git sec spec.type a dir url ref scheme)

  module _ (dc : DriftCheck) (spec : Api.GitAuth) where
    Yields-source_of_type :
        (t : Api.SourceType)
        → auth_spec t dc.spec.source ≡ some spec
        → Yields (IsQuiet b anonymous_clones) (source_of_type kube none dc t)
    unfolding source_of_type
    Yields-source_of_type config_map h = cc
    Yields-source_of_type git h =
        Yields-bind _ _ (Yields-required kube _ dc.spec.source.git) (λ g named.
          Yields-if (is_empty g.url) _ _ (λ _. Yields-fail _)
            (λ _. Yields-bind _ _ (Yields-resolve_git_auth kube dc.namespace g.auth) (λ auth r.
              Yields-pure _ (λ dir.
                Keeps-authenticated dc.namespace spec auth g.url g.ref dir
                  (rw (rw named at h) at r)))))
    Yields-source_of_type helm h =
        Yields-bind _ _ (Yields-required kube _ dc.spec.source.helm) (λ c named.
          Yields-if (is_empty c.git.url) _ _ (λ _. Yields-fail _)
            (λ _. Yields-bind _ _ (Yields-resolve_git_auth kube dc.namespace c.git.auth) (λ auth r.
              Yields-pure _ (
                λ dir.
                    Keeps-authenticated dc.namespace spec auth c.git.url c.git.ref dir
                      (rw (rw named at h) at r),
                tt,
              ))))
    Yields-source_of_type kustomize h =
        Yields-bind _ _ (Yields-required kube _ dc.spec.source.kustomize) (λ k named.
          Yields-if (is_empty k.git.url) _ _ (λ _. Yields-fail _)
            (λ _. Yields-bind _ _ (Yields-resolve_git_auth kube dc.namespace k.git.auth) (λ auth r.
              Yields-pure _ (λ dir.
                Keeps-authenticated dc.namespace spec auth k.git.url k.git.ref dir
                  (rw (rw named at h) at r)))))
    Yields-source_of_type (other t) h = cc

  IsQuiet-new_target_filter :
      (src : Source.Source S) (names : List Text) (sel : Option Selector)
      → IsQuiet b anonymous_clones src
      → IsQuiet b anonymous_clones (new_target_filter src names sel)
  unfolding new_target_filter
  IsQuiet-new_target_filter src [] none h = h
  IsQuiet-new_target_filter src [] (some sel) h = h
  IsQuiet-new_target_filter src (n ∷ names) sel h = h

  -- If the block that the source's type names refers to a Secret, the source that is built for the
  -- check never clones without credentials, by whatever backend it loads. No clone is injected.
  pub anonymous_clones-load :
      (dc : DriftCheck) (spec : Api.GitAuth) (m : Machine S) (src filtered : Source.Source S)
      → auth_spec dc.spec.source.type dc.spec.source ≡ some spec
      → (build_source kube none dc m).0 ≡ ok src
      → apply_target kube src dc.spec.target ≡ ok filtered
      → Keeps anonymous_clones (load b filtered)
  unfolding build_source
  anonymous_clones-load dc spec m src filtered refers built applied =
      let quiet = (Yields-source_of_type dc spec dc.spec.source.type refers).at m src built in
      let (sel, same) = apply_target-ok kube src filtered dc.spec.target applied in
      let brackets = KeepsBrackets-intro anonymous_clones (λ r cs. refl) (λ d r cs. refl) in
      Keeps-load brackets b (Abandons-intro b brackets (λ r cs. refl)) filtered
        (rw same at (IsQuiet-new_target_filter src dc.spec.target.namespaces sel quiet))
