-- ===== src/Source/Target.antt =====
-- internal/source/target.go: the loop of `targetFilter.Load`.
pub mod Filter
use kube_drift.Common.{
  Bool, true, false, Option, none, some, List, [], ◌∷◌, Text, ◌==◌, ◌&&◌, ◌||◌, if◌then◌else◌,
}
use kube_drift.Libraries.{Labels, Selector, Resource}

-- The lookup `f.namespaces[ns]` in the set of the listed namespaces.
unfoldable pub listed : Text → List Text → Bool
listed ns [] = false
listed ns (n ∷ names) = n == ns || listed ns names

-- A nil map of namespaces, one that is empty, filters nothing.
unfoldable pub in_namespaces : List Text → Resource → Bool
unfolding listed
in_namespaces [] r = true
in_namespaces (n ∷ names) r = listed r.namespace (n ∷ names)

-- The labels of a resource; nil where there is no object.
unfoldable pub labels_of : Resource → Labels
labels_of r = elim r.object [ none ↦ [] | some o ↦ o.labels ]

unfoldable pub selected : Option Selector → Resource → Bool
unfolding labels_of
selected none r = true
selected (some matches) r = matches (labels_of r)

unfoldable pub keeps : List Text → Option Selector → Resource → Bool
unfolding in_namespaces selected
keeps names selector r = in_namespaces names r && selected selector r

unfoldable pub filter_loaded : List Text → Option Selector → List Resource → List Resource
unfolding keeps
filter_loaded names selector [] = []
filter_loaded names selector (r ∷ all) =
    let kept = filter_loaded names selector all in if keeps names selector r then r ∷ kept else kept
