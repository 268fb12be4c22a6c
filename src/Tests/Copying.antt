-- ===== src/Tests/Copying.antt =====
-- Examples of the theorems on the generated deep copies: a check whose Helm values and whose labels
-- have addresses.
use kube_drift.Common.{ℕ, false, refl, none, some, [], ◌∷◌, Text, text, arith}
use kube_drift.Api
use kube_drift.DeepCopy.{pure, ◌>>=◌, allocate, Kind, Meta, Library}
use kube_drift.DeepCopy.Objects.{GitSource, HelmSource, DriftCheck, DriftCheckList}
use kube_drift.DeepCopy.ApiTypes.{kind, drift_check_list, deep_copy_of}
use kube_drift.DeepCopy.Kinds.{flat, pointer}
use kube_drift.DeepCopy.Independence.{IsDeep, flat-IsDeep}
use kube_drift.DeepCopy.Independence.Types.{LibraryIsDeep}
use kube_drift.DeepCopy.Independence.Everywhere.{IsCopy, deep_copy_of-IsCopy}

-- A type with one pointer, such as the bytes of a v1.JSON.
abbrev boxed : (A : Type 0) → Kind A
boxed A = record {
  Object = ℕ × A;
  value = λ (address, x). x;
  addresses = λ (address, x). address ∷ [];
  deep_copy = λ (address, x). do
    fresh ← allocate
    pure (fresh, x);
}

boxed-IsDeep : (A : Type 0) → IsDeep (boxed A)
unfolding pure ◌>>=◌ allocate
boxed-IsDeep A = record {
  grows = λ x n. omega arith;
  same = λ x n. refl;
  fresh = λ x n. ((omega arith, omega arith), tt);
  distinct = λ x n. (tt, tt);
}

abbrev library : Library
library = record {
  json = boxed Text;
  label_selector = flat Api.LabelSelector;
  time = flat ℕ;
  condition = flat Api.Condition;
  object_meta = boxed Meta;
  list_meta = flat Text;
}

library-IsDeep : LibraryIsDeep library
library-IsDeep = record {
  json = boxed-IsDeep Text;
  label_selector = flat-IsDeep Api.LabelSelector;
  time = flat-IsDeep ℕ;
  condition = flat-IsDeep Api.Condition;
  object_meta = boxed-IsDeep Meta;
  list_meta = flat-IsDeep Text;
}

abbrev charts : GitSource
charts = record {
  url = text "https://git.example/charts";
  ref = text "main";
  path = text "app";
  auth = some (1, record { type = Api.basic; secret_ref = record { name = text "credentials" } });
}

abbrev helm : HelmSource library
helm = record {
  git = charts;
  release_name = text "app";
  namespace = text "web";
  values = some (2, (3, text "{\"replicas\":2}"));
  values_files = some (4, text "prod.yaml" ∷ text "eu.yaml" ∷ []);
  dependency_build = false;
}

abbrev check : DriftCheck library
check = record {
  object_meta = (
    6,
    record {
      name = text "app";
      namespace = text "web";
      generation = 1;
      resource_version = text "10";
    },
  );
  spec = record {
    source = record {
      type = Api.helm;
      git = none;
      config_map = none;
      helm = some (5, helm);
      kustomize = none;
    };
    target = record { namespaces = some (0, text "web" ∷ []); label_selector = none };
    interval = Api.pos 300000000000;
    notify = none;
  };
  status = record {
    last_checked_at = some (7, 100);
    drifted_resources = none;
    summary = record { changed = 0; new = 0; deleted = 0; unchanged = 3 };
    observed_generation = 1;
    last_notified_hash = [];
    conditions = none;
  };
}

abbrev checks : DriftCheckList library
checks = record { list_meta = text "10"; items = some (8, check ∷ []) }

deep_copy_of-IsCopy_example :
    IsCopy
      (pointer (kind library drift_check_list))
      (some (9, checks))
      (deep_copy_of library drift_check_list (some (9, checks)) 10).0
deep_copy_of-IsCopy_example =
    deep_copy_of-IsCopy library library-IsDeep drift_check_list (some (9, checks)) 10 (ground arith)
