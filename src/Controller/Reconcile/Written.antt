-- ===== src/Controller/Reconcile/Written.antt =====
-- The status writes among the effects of a reconcile.
use kube_drift.Common.{◌≡◌, refl, ap, sym, ◌∙◌, Bool, true, false, List, [], ◌∷◌}
use kube_drift.Machine.{
  Call, updated_status, set_gauge, deleted_gauges, sent, posted, emitted, made_dir, removed_dir,
  made_file, removed_file, cloned, checked_out,
}
use kube_drift.Api.{DriftCheck}
use kube_drift.Controller.Notifying.Calls.{writes}
use kube_drift.Controller.Reconcile.Effects.{effects}
use kube_drift.Controller.Reconcile.Endings.{deletion, recording}

pub writes-effects : (cs : List Call) → writes (effects cs) ≡ writes cs
writes-effects [] = refl
writes-effects (updated_status dc r ∷ cs) = ap (λ ds. dc ∷ ds) (writes-effects cs)
writes-effects (set_gauge n ns s v ∷ cs) = writes-effects cs
writes-effects (deleted_gauges n ns ∷ cs) = writes-effects cs
writes-effects (sent wh ev r ∷ cs) = writes-effects cs
writes-effects (posted q ∷ cs) = writes-effects cs
writes-effects (emitted t r e ∷ cs) = writes-effects cs
writes-effects (made_dir r ∷ cs) = writes-effects cs
writes-effects (removed_dir d r ∷ cs) = writes-effects cs
writes-effects (made_file r ∷ cs) = writes-effects cs
writes-effects (removed_file f r ∷ cs) = writes-effects cs
writes-effects (cloned d u a ∷ cs) = writes-effects cs
writes-effects (checked_out h r ∷ cs) = writes-effects cs

-- Two lists of calls with the same effects have the same writes.
pub writes_of_effects : (cs ds : List Call) → effects cs ≡ ds → writes cs ≡ writes ds
writes_of_effects cs ds e = sym (writes-effects cs) ∙ ap writes e

pub writes-deletion :
    (b : Bool) (dc : DriftCheck) (cs : List Call) → writes (deletion b dc cs) ≡ writes cs
writes-deletion true dc cs = refl
writes-deletion false dc cs = refl

pub writes-recording :
    (b : Bool) (dc : DriftCheck) (cs : List Call) → writes (recording b dc cs) ≡ writes cs
writes-recording true dc cs = refl
writes-recording false dc cs = refl
