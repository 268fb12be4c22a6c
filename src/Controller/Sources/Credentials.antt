-- ===== src/Controller/Sources/Credentials.antt =====
-- The block and the credentials that a source is built from.
use kube_drift.Controller.ConfigMaps.{config_map_manifests}
use kube_drift.Machine.{Exec, ask, wrapped, ◌>>=◌}
use kube_drift.Errors.Format.{Arg}
use kube_drift.Common.{
  List, [], ◌∷◌, String, ◌≡◌, refl, Option, none, some, ◌++◌, Text, text, is_empty,
}
use kube_drift.Errors.{Result, ok, Error}
use kube_drift.Machine.Rules.{
  Yields-wrapped, Yields, Yields-pure, Yields-fail, Yields-lift, Yields-if, Yields-bind,
}
use kube_drift.Libraries.{ConfigMap, Kube, Secret}
use kube_drift.Api
use kube_drift.Api.{DriftCheck, GitAuthType, config_map, git, helm, kustomize, other}
use kube_drift.Source
use kube_drift.Source.{GitAuth, CloneFunc}
use kube_drift.Controller.Secrets.Schemes.{HasScheme, credentials-HasScheme}
use kube_drift.Controller.Sources.{
  or_default, config_map_source, git_source, helm_source, kustomize_source, required,
  resolve_git_auth, source_of_type, build_source,
}

-- What a read of a Secret gave.
abbrev pub ReadsSecret : {S : Type 0} → Kube S → Text → Text → Secret → Type 0
ReadsSecret {S} kube ns name sec =
    (s : S) × ((kube.get_secret (record { name = name; namespace = ns }) s).0 ≡ ok sec)

-- The credentials that go with a reference: none with none, and else those of its scheme in the
-- Secret of its name and of the namespace.
abbrev pub Resolves : {S : Type 0} → Kube S → Text → Option Api.GitAuth → Option GitAuth → Type 0
Resolves kube ns none auth = auth ≡ none
Resolves kube ns (some spec) auth =
    (sec : Secret) × (a : GitAuth) × ReadsSecret kube ns spec.secret_ref.name sec
    × (auth ≡ some a)
    × HasScheme sec spec.type a

-- A text, or another one in the place of the empty text.
abbrev pub IsOr : Text → Text → Text → Type 0
IsOr [] fallback t = t ≡ fallback
IsOr (c ∷ s) fallback t = t ≡ c ∷ s

abbrev pub raw_values : Option Text → Text
raw_values none = []
raw_values (some raw) = raw

module _ {S : Type 0} (kube : Kube S) (cloner : Option (CloneFunc S)) (dc : DriftCheck) where
  -- A ConfigMap source has the manifests of the ConfigMap of the name and the namespace.
  abbrev pub FromConfigMap : Api.ConfigMapSource → Source.Source S → Type 0
  FromConfigMap cm src =
      (ns : Text) × (found : ConfigMap) × (v : Text) × IsOr cm.namespace dc.namespace ns
      × ((s : S) × ((kube.get_config_map (record { name = cm.name; namespace = ns }) s).0
            ≡ ok found))
      × (config_map_manifests found cm.key ≡ ok v)
      × (src ≡ Source.bytes v)

  abbrev pub FromGit : Api.GitSource → Source.Source S → Type 0
  FromGit g src =
      (auth : Option GitAuth) × Resolves kube dc.namespace g.auth auth
      × (src
          ≡ Source.git
              (record { url = g.url; ref = g.ref; path = g.path; auth = auth; clone = cloner }))

  abbrev pub FromHelm : Api.HelmSource → Source.Source S → Type 0
  FromHelm h src =
      (auth : Option GitAuth) × (release_name namespace : Text) × Resolves kube dc.namespace
        h.git.auth auth
      × IsOr h.release_name dc.name release_name
      × IsOr h.namespace dc.namespace namespace
      × (src
          ≡ Source.helm (record {
            url = h.git.url;
            ref = h.git.ref;
            path = h.git.path;
            release_name = release_name;
            namespace = namespace;
            values = raw_values h.values;
            values_files = h.values_files;
            dependency_build = h.dependency_build;
            auth = auth;
            build_deps = none;
            clone = cloner;
          }))

  abbrev pub FromKustomize : Api.KustomizeSource → Source.Source S → Type 0
  FromKustomize k src =
      (auth : Option GitAuth) × Resolves kube dc.namespace k.git.auth auth
      × (src
          ≡ Source.kustomize (record {
            url = k.git.url;
            ref = k.git.ref;
            path = k.git.path;
            auth = auth;
            clone = cloner;
          }))

  -- What a spec names, by its type.
  abbrev pub Matches : Api.SourceType → Api.Source → Source.Source S → Type 0
  Matches config_map spec src =
      (cm : Api.ConfigMapSource) × (spec.config_map ≡ some cm) × FromConfigMap cm src
  Matches git spec src = (g : Api.GitSource) × (spec.git ≡ some g) × FromGit g src
  Matches helm spec src = (h : Api.HelmSource) × (spec.helm ≡ some h) × FromHelm h src
  Matches kustomize spec src =
      (k : Api.KustomizeSource) × (spec.kustomize ≡ some k) × FromKustomize k src
  Matches (other t) spec src = ⊥

or_default-IsOr : (s d : Text) → IsOr s d (or_default s d)
or_default-IsOr [] d = refl
or_default-IsOr (c ∷ s) d = refl

module _ {S : Type 0} (kube : Kube S) where
  pub Yields-required :
      {A : Type 0} (e : Error) (o : Option A) → Yields (λ a. o ≡ some a) (required {S = S} e o)
  Yields-required e none = Yields-fail e
  Yields-required e (some a) = Yields-pure a refl

  Yields-read :
      {A : Type 0} (format : String) (args : List Arg) (f : S → Result A × S)
      → Yields (λ a. (s : S) × ((f s).0 ≡ ok a)) (wrapped format args (ask f))
  unfolding ask
  Yields-read format args f = Yields-wrapped _ _ _ (record { at = λ m a e. (m.world, e) })

  pub Yields-resolve_git_auth :
      (ns : Text) (spec : Option Api.GitAuth)
      → Yields (Resolves kube ns spec) (resolve_git_auth kube ns spec)
  unfolding resolve_git_auth
  Yields-resolve_git_auth ns none = Yields-pure none refl
  Yields-resolve_git_auth ns (some spec) =
      let name = ns ++ text "/" ++ spec.secret_ref.name in
      Yields-bind _ _ (Yields-read _ _ _) (λ sec read.
        Yields-bind _ _ (Yields-lift _ (λ a h. credentials-HasScheme spec.type name sec a h))
          (λ a scheme. Yields-pure _ (sec, a, read, refl, scheme)))

  module _ (cloner : Option (CloneFunc S)) (dc : DriftCheck) where
    values-raw : (o : Option Text) → (elim o [ none ↦ [] | some raw ↦ raw ]) ≡ raw_values o
    values-raw none = refl
    values-raw (some raw) = refl

    Yields-config_map_source :
        (cm : Api.ConfigMapSource)
        → Yields (FromConfigMap kube cloner dc cm) (config_map_source kube cloner dc cm)
    unfolding config_map_source
    Yields-config_map_source cm = Yields-bind _ _ (Yields-read _ _ _) (λ found read.
        Yields-bind _ _
          (Yields-lift {P = λ v. config_map_manifests found cm.key ≡ ok v} _ (λ v h. h))
          (λ v held. Yields-pure _ (
            or_default cm.namespace dc.namespace,
            found,
            v,
            or_default-IsOr _ _,
            read,
            held,
            refl,
          )))

    Yields-git_source :
        (g : Api.GitSource) → Yields (FromGit kube cloner dc g) (git_source kube cloner dc g)
    unfolding git_source
    Yields-git_source g =
        Yields-if (is_empty g.url) _ _ (λ _. Yields-fail _)
          (λ _.
            Yields-bind _ _ (Yields-resolve_git_auth dc.namespace g.auth)
              (λ auth r. Yields-pure _ (auth, r, refl)))

    Yields-helm_source :
        (h : Api.HelmSource) → Yields (FromHelm kube cloner dc h) (helm_source kube cloner dc h)
    unfolding helm_source
    Yields-helm_source h =
        Yields-if (is_empty h.git.url) _ _ (λ _. Yields-fail _)
          (λ _. Yields-bind _ _ (Yields-resolve_git_auth dc.namespace h.git.auth) (λ auth r.
            Yields-pure _ (
              auth,
              or_default h.release_name dc.name,
              or_default h.namespace dc.namespace,
              r,
              or_default-IsOr _ _,
              or_default-IsOr _ _,
              rw (values-raw h.values) refl,
            )))

    Yields-kustomize_source :
        (k : Api.KustomizeSource)
        → Yields (FromKustomize kube cloner dc k) (kustomize_source kube cloner dc k)
    unfolding kustomize_source
    Yields-kustomize_source k =
        Yields-if (is_empty k.git.url) _ _ (λ _. Yields-fail _)
          (λ _.
            Yields-bind _ _ (Yields-resolve_git_auth dc.namespace k.git.auth)
              (λ auth r. Yields-pure _ (auth, r, refl)))

    -- The block that a type names, and what is made of it.
    Yields-block :
        {A : Type 0} {P : A → Source.Source S → Type 0} (e : Error) (o : Option A)
        (make : A → Exec S (Source.Source S))
        → ((a : A) → Yields (P a) (make a))
        → Yields (λ src. (a : A) × (o ≡ some a) × P a src) (required e o >>= make)
    Yields-block {P = P} e o make made =
        Yields-bind _ _ (Yields-required e o)
          (λ a named. record { at = λ m src h. (a, named, (made a).at m src h) })

    Yields-source_of_type :
        (t : Api.SourceType)
        → Yields (Matches kube cloner dc t dc.spec.source) (source_of_type kube cloner dc t)
    unfolding source_of_type
    Yields-source_of_type config_map =
        Yields-block _ dc.spec.source.config_map _ Yields-config_map_source
    Yields-source_of_type git = Yields-block _ dc.spec.source.git _ Yields-git_source
    Yields-source_of_type helm = Yields-block _ dc.spec.source.helm _ Yields-helm_source
    Yields-source_of_type kustomize =
        Yields-block _ dc.spec.source.kustomize _ Yields-kustomize_source
    Yields-source_of_type (other t) = Yields-fail _

    -- A source is only built from the block of the spec that its type names, field by field. A Git,
    -- Helm or Kustomize source clones with the credentials that the block refers to: with none if it
    -- refers to none, and else with those of its scheme from the Secret of that name in the check's
    -- namespace. A ConfigMap source has the manifests of the ConfigMap of the name that the block
    -- gives, in its namespace or else the check's.
    pub build_source-Matches :
        Yields
          (Matches kube cloner dc dc.spec.source.type dc.spec.source)
          (build_source kube cloner dc)
    unfolding build_source
    build_source-Matches = Yields-source_of_type dc.spec.source.type
