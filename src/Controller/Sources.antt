-- ===== src/Controller/Sources.antt =====
-- `resolveGitAuth`, `buildSource` and `applyTarget` of
-- internal/controller/driftcheck_controller.go
pub mod Tidy
pub mod Credentials
pub mod Anonymity
use kube_drift.Common.{
  Bool, Option, none, some, List, [], ◌∷◌, ◌++◌, Text, text, is_empty, if◌then◌else◌,
}
use kube_drift.Errors
use kube_drift.Errors.{Error, Result, ok, err, errorf}
use kube_drift.Errors.Format.{str}
use kube_drift.Machine.{Exec, pure, fail, lift, ask, wrapped, ◌>>=◌}
use kube_drift.Libraries.{Kube, NamespacedName}
use kube_drift.Api
use kube_drift.Api.{DriftCheck, Target, config_map, git, helm, kustomize, other}
use kube_drift.Source
use kube_drift.Source.{GitAuth, CloneFunc}
use kube_drift.Source.Load.{new_target_filter}
use kube_drift.Controller.ConfigMaps.{config_map_manifests}
use kube_drift.Controller.Secrets.{credentials}

-- `if s == "" { s = d }`
abbrev pub or_default : Text → Text → Text
or_default s d = if is_empty s then d else s

-- A field that has to be set.
abbrev pub required : {S A : Type 0} → Error → Option A → Exec S A
required e none = fail e
required e (some a) = pure a

module _ {S : Type 0} (kube : Kube S) where
  unfoldable pub resolve_git_auth : Text → Option Api.GitAuth → Exec S (Option GitAuth)
  resolve_git_auth ns none = pure none
  resolve_git_auth ns (some spec) = do
    let at : NamespacedName = record { name = spec.secret_ref.name; namespace = ns }
    sec ←
        wrapped "get git auth Secret %s/%s: %w" (str ns ∷ str spec.secret_ref.name ∷ [])
          (ask (kube.get_secret at))
    auth ← lift (credentials spec.type (ns ++ text "/" ++ spec.secret_ref.name) sec)
    pure (some auth)

  module _ (cloner : Option (CloneFunc S)) (dc : DriftCheck) where
    unfoldable pub config_map_source : Api.ConfigMapSource → Exec S (Source.Source S)
    config_map_source cm = do
      let ns = or_default cm.namespace dc.namespace
      let at : NamespacedName = record { name = cm.name; namespace = ns }
      found ←
          wrapped "get ConfigMap %s/%s: %w" (str ns ∷ str cm.name ∷ [])
            (ask (kube.get_config_map at))
      manifests ← lift (config_map_manifests found cm.key)
      pure (Source.bytes manifests)

    unfoldable pub git_source : Api.GitSource → Exec S (Source.Source S)
    unfolding resolve_git_auth
    git_source g =
        if is_empty g.url
        then fail (errorf "source.git.url is required when type is Git" [])
        else do
          auth ← resolve_git_auth dc.namespace g.auth
          pure (
              Source.git
                (record { url = g.url; ref = g.ref; path = g.path; auth = auth; clone = cloner }))

    unfoldable pub helm_source : Api.HelmSource → Exec S (Source.Source S)
    unfolding resolve_git_auth
    helm_source h =
        if is_empty h.git.url
        then fail (errorf "source.helm.git.url is required when type is Helm" [])
        else do
          auth ← resolve_git_auth dc.namespace h.git.auth
          pure (
              Source.helm (record {
                url = h.git.url;
                ref = h.git.ref;
                path = h.git.path;
                release_name = or_default h.release_name dc.name;
                namespace = or_default h.namespace dc.namespace;
                values = elim h.values [ none ↦ [] | some raw ↦ raw ];
                values_files = h.values_files;
                dependency_build = h.dependency_build;
                auth = auth;
                build_deps = none;
                clone = cloner;
              }))

    unfoldable pub kustomize_source : Api.KustomizeSource → Exec S (Source.Source S)
    unfolding resolve_git_auth
    kustomize_source k =
        if is_empty k.git.url
        then fail (errorf "source.kustomize.git.url is required when type is Kustomize" [])
        else do
          auth ← resolve_git_auth dc.namespace k.git.auth
          pure (
              Source.kustomize (record {
                url = k.git.url;
                ref = k.git.ref;
                path = k.git.path;
                auth = auth;
                clone = cloner;
              }))

    -- The `switch` on the type.
    unfoldable pub source_of_type : Api.SourceType → Exec S (Source.Source S)
    unfolding config_map_source git_source helm_source kustomize_source
    source_of_type config_map = do
      cm ←
          required (errorf "source.configMap is required when type is ConfigMap" [])
            dc.spec.source.config_map
      config_map_source cm
    source_of_type git = do
      g ← required (errorf "source.git is required when type is Git" []) dc.spec.source.git
      git_source g
    source_of_type helm = do
      h ← required (errorf "source.helm is required when type is Helm" []) dc.spec.source.helm
      helm_source h
    source_of_type kustomize = do
      k ←
          required (errorf "source.kustomize is required when type is Kustomize" [])
            dc.spec.source.kustomize
      kustomize_source k
    source_of_type (other t) = fail (errorf "unknown source type %q" (str t ∷ []))

    unfoldable pub build_source : Exec S (Source.Source S)
    unfolding source_of_type
    build_source = source_of_type dc.spec.source.type

  unfoldable pub apply_target : Source.Source S → Target → Result (Source.Source S)
  apply_target src t = elim t.label_selector [
    | none ↦ ok (new_target_filter src t.namespaces none)
    | some ls ↦
        Errors.◌>>=◌
          (Errors.wrapped "invalid target.labelSelector: %w" []
            (kube.label_selector_as_selector ls))
          (λ sel. ok (new_target_filter src t.namespaces (some sel)))
  ]
