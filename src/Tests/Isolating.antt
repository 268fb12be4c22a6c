-- ===== src/Tests/Isolating.antt =====
-- An example of checks that leave one another alone.
use kube_drift.Common.{◌≡◌, refl, List, [], ◌∷◌, text, ◌==◌}
use kube_drift.Errors.{ok}
use kube_drift.Machine.{Machine, set_gauge}
use kube_drift.Libraries.{NamespacedName}
use kube_drift.Controller.{World}
use kube_drift.Controller.Reconcile.Isolation.{
  touched, AnswersByName, reconciles, touched-reconciles,
}
use kube_drift.Tests.Fixtures.{S, check, kube, world, reconciler, start}
use kube_drift.Tests.Controlling.{engine-EngineKeeps}

-- A cluster in which every check that is asked for exists.
abbrev crowded : World S
crowded = record world {
  kube = record kube {
    get_drift_check = λ at s. (ok (record check { name = at.name; namespace = at.namespace }), s);
  };
}

crowded-AnswersByName : AnswersByName crowded
crowded-AnswersByName = record {
  of_get = λ req s dc h. (cc, cc);
  of_update = λ d d' (s, h). (cc, cc);
}

abbrev mine : NamespacedName
mine = record { name = text "mine"; namespace = text "a" }

abbrev others : List NamespacedName
others =
    record { name = text "check"; namespace = text "a" }
    ∷ record { name = text "mine"; namespace = text "b" }
    ∷ []

-- A machine that has set a gauge of the check.
abbrev before : Machine S
before = record start { calls = set_gauge (text "mine") (text "a") (text "new") 1 ∷ [] }

touched-reconciles_example :
    touched mine (reconciles reconciler crowded others before).calls
    ≡ set_gauge (text "mine") (text "a") (text "new") 1 ∷ []
unfolding ◌==◌
touched-reconciles_example =
    touched-reconciles mine reconciler crowded tt crowded-AnswersByName tt engine-EngineKeeps others
      before (refl, (refl, tt))
