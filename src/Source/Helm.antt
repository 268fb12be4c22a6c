-- ===== src/Source/Helm.antt =====
-- `renderHelmChart` of internal/source/helm.go and `renderKustomize` of internal/source/kustomize.go
use kube_drift.Common.{
  List, [], ◌∷◌, ◌++◌, Text, text, is_empty, trim_space, has_suffix, join, if◌then◌else◌,
}
use kube_drift.Errors.Format.{str}
use kube_drift.Machine.{Exec, pure, lift, ask, wrapped, ◌>>=◌}
use kube_drift.Libraries.{Os}
use kube_drift.Source.Values.{Fields, end, merge_values}
use kube_drift.Source.Charts.{Charts}

-- The copy of the rendered files without those named NOTES.txt.
unfoldable pub without_notes : List (Text × Text) → List (Text × Text)
without_notes [] = []
without_notes ((k, v) ∷ files) =
    let rest = without_notes files in
    if has_suffix k (text "NOTES.txt") then rest else (k, v) ∷ rest

-- The documents that are more than white space.
unfoldable pub nonblank : List Text → List Text
nonblank [] = []
nonblank (d ∷ docs) = let rest = nonblank docs in if is_empty (trim_space d) then rest else d ∷ rest

unfoldable pub manifest_stream : List Text → List Text → Text
unfolding nonblank
manifest_stream crds manifests = join (text "\n---\n") (nonblank crds ++ nonblank manifests)

module _ {S : Type 0} (os : Os S) (charts : Charts S) where
  -- The loop over the values files, on top of what is merged so far.
  unfoldable pub merge_files : Text → List Text → Fields → Exec S Fields
  merge_files chart_dir [] vals = pure vals
  merge_files chart_dir (vf ∷ files) vals = do
    p ← wrapped "resolve values file %q: %w" (str vf ∷ []) (ask (os.secure_join chart_dir vf))
    b ← wrapped "read values file %q: %w" (str vf ∷ []) (ask (os.read_file p))
    m ← wrapped "parse values file %q: %w" (str vf ∷ []) (lift (charts.read_values b))
    merge_files chart_dir files (merge_values vals m)

  unfoldable pub merge_inline : Text → Fields → Exec S Fields
  merge_inline inline vals = if is_empty inline then pure vals else do
    m ← wrapped "parse inline values: %w" [] (lift (charts.read_values inline))
    pure (merge_values vals m)

  unfoldable pub render_helm_chart : Text → Text → Text → Text → List Text → Exec S Text
  unfolding merge_files merge_inline manifest_stream
  render_helm_chart chart_dir release_name namespace inline values_files = do
    ch ← wrapped "load chart %s: %w" (str chart_dir ∷ []) (ask (charts.load_chart chart_dir))
    from_files ← merge_files chart_dir values_files end
    vals ← merge_inline inline from_files
    processed ←
        wrapped "process chart dependencies: %w" [] (lift (charts.process_dependencies ch vals))
    render_vals ←
        wrapped "build render values: %w" []
          (lift (charts.to_render_values processed.0 processed.1 release_name namespace))
    files ← wrapped "render chart: %w" [] (lift (charts.render processed.0 render_vals))
    manifests ←
        wrapped "sort rendered manifests: %w" []
          (lift (charts.sort_manifests (without_notes files)))
    pure (manifest_stream processed.0.crds manifests)

  unfoldable pub render_kustomize : Text → Exec S Text
  render_kustomize dir = do
    res_map ← wrapped "kustomize build %s: %w" (str dir ∷ []) (ask (charts.kustomize_run dir))
    wrapped "render kustomize output: %w" [] (lift (charts.as_yaml res_map))
