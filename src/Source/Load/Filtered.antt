-- ===== src/Source/Load/Filtered.antt =====
-- What a `target` block changes of a load.
use kube_drift.Common.{◌≡◌, refl, ap, sym, Option, none, some, List, [], ◌∷◌, Text}
use kube_drift.Errors.{Result, ok, err}
use kube_drift.Machine.{Machine, pure, continue, ◌>>=◌}
use kube_drift.Libraries.{Selector, Resource}
use kube_drift.Source.{Source, target_filter}
use kube_drift.Source.Target.{in_namespaces, selected, keeps, filter_loaded}
use kube_drift.Source.Load.{Backends, new_target_filter, load}

-- The resources of a load, filtered; an error as it is.
abbrev pub targeted : List Text → Option Selector → Result (List Resource) → Result (List Resource)
targeted names sel (ok rs) = ok (filter_loaded names sel rs)
targeted names sel (err e) = err e

filter_loaded-all : (rs : List Resource) → filter_loaded [] none rs ≡ rs
unfolding filter_loaded keeps in_namespaces selected
filter_loaded-all [] = refl
filter_loaded-all (r ∷ rs) = ap (λ ss. r ∷ ss) (filter_loaded-all rs)

module _ {S : Type 0} (b : Backends S) (src : Source S) where
  targeted-all : (out : Result (List Resource)) → out ≡ targeted [] none out
  targeted-all (ok rs) = ap ok (sym (filter_loaded-all rs))
  targeted-all (err e) = refl

  load-filter :
      (names : List Text) (sel : Option Selector) (m : Machine S)
      → load b (target_filter src names sel) m
        ≡ (targeted names sel (load b src m).0, (load b src m).1)
  unfolding load ◌>>=◌ pure
  load-filter names sel m = go (load b src m).0 (load b src m).1
    where
      go :
          (out : Result (List Resource)) (m1 : Machine S)
          → continue out (λ all. pure (filter_loaded names sel all)) m1
            ≡ (targeted names sel out, m1)
      go (ok rs) m1 = refl
      go (err e) m1 = refl

  -- A target block narrows what its source loads and changes nothing else: not the calls, not an
  -- error; and an empty block changes nothing.
  pub load-new_target_filter :
      (names : List Text) (sel : Option Selector) (m : Machine S)
      → load b (new_target_filter src names sel) m
        ≡ (targeted names sel (load b src m).0, (load b src m).1)
  unfolding new_target_filter
  load-new_target_filter [] none m =
      ap (λ out. (out, (load b src m).1)) (targeted-all (load b src m).0)
  load-new_target_filter [] (some f) m = load-filter [] (some f) m
  load-new_target_filter (n ∷ names) sel m = load-filter (n ∷ names) sel m
