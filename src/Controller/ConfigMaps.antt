-- ===== src/Controller/ConfigMaps.antt =====
-- `configMapManifests` of internal/controller/driftcheck_controller.go
pub mod Held
pub mod Manifests
use kube_drift.Common.{
  Option, none, some, List, [], ◌∷◌, ◌++◌, Text, text, ◌==◌, is_empty, trim_space, join,
  sort_strings, if◌then◌else◌,
}
use kube_drift.Errors.{Result, ok, err, errorf}
use kube_drift.Errors.Format.{str}
use kube_drift.Libraries.{ConfigMap}

-- `m[k]` of a map of texts.
unfoldable pub entry : Text → List (Text × Text) → Option Text
entry k [] = none
entry k ((j, v) ∷ m) = if j == k then some v else entry k m

unfoldable pub keys : List (Text × Text) → List Text
keys [] = []
keys ((k, v) ∷ m) = k ∷ keys m

-- `get`: Data first, then BinaryData.
unfoldable pub content : ConfigMap → Text → Option Text
unfolding entry
content cm k = elim (entry k cm.texts) [ some v ↦ some v | none ↦ entry k cm.binaries ]

-- The loop over the sorted keys.
unfoldable pub contents : ConfigMap → List Text → List Text
unfolding content
contents cm [] = []
contents cm (k ∷ ks) =
    let rest = contents cm ks in elim (content cm k) [ some v ↦ v ∷ rest | none ↦ rest ]

abbrev pub all_keys : ConfigMap → List Text
all_keys cm = keys cm.texts ++ keys cm.binaries

-- Every entry, joined.
unfoldable pub joined_content : ConfigMap → Text
unfolding contents keys
joined_content cm = join (text "\n---\n") (contents cm (sort_strings (all_keys cm)))

-- The branch for one key.
unfoldable pub key_manifests : ConfigMap → Text → Result Text
unfolding content
key_manifests cm key = elim (content cm key) [
  | none ↦
      err (
        errorf "key %q not found in ConfigMap %s/%s"
          (str key ∷ str cm.namespace ∷ str cm.name ∷ []))
  | some v ↦
      if is_empty (trim_space v)
      then err (
          errorf "key %q in ConfigMap %s/%s is empty"
            (str key ∷ str cm.namespace ∷ str cm.name ∷ []))
      else ok v
]

unfoldable pub all_manifests : ConfigMap → Result Text
unfolding joined_content
all_manifests cm =
    if is_empty (trim_space (joined_content cm))
    then err (errorf "no manifests found in ConfigMap %s/%s" (str cm.namespace ∷ str cm.name ∷ []))
    else ok (joined_content cm)

unfoldable pub config_map_manifests : ConfigMap → Text → Result Text
unfolding key_manifests all_manifests
config_map_manifests cm key = if is_empty key then all_manifests cm else key_manifests cm key
