-- ===== src/Machine/Sameness.antt =====
-- When two functions are one, and for which values of its first part the rest of a function matters.
use kube_drift.Common.{◌≡◌, refl, fun_ext}
use kube_drift.Errors.{Result, ok, err}
use kube_drift.Machine.{Machine, Exec, continue, ◌>>=◌}
use kube_drift.Machine.Rules.{Yields}

module _ {S A B : Type 0} where
  continue-same :
      (r : Result A) (k l : A → Exec S B) (m : Machine S)
      → ((a : A) → r ≡ ok a → k a m ≡ l a m)
      → continue r k m ≡ continue r l m
  continue-same (ok a) k l m h = h a refl
  continue-same (err e) k l m h = refl

  -- The rests agree where the first part is run from `m`.
  pub bind-same_at :
      (f : Exec S A) (k l : A → Exec S B) (m : Machine S)
      → ((a : A) → (f m).0 ≡ ok a → k a (f m).1 ≡ l a (f m).1)
      → (f >>= k) m ≡ (f >>= l) m
  unfolding ◌>>=◌
  bind-same_at f k l m h = continue-same (f m).0 k l (f m).1 h

  -- The rests agree on all that the first part returns.
  pub bind-same :
      {Q : A → Type 0} (f : Exec S A) (k l : A → Exec S B)
      → Yields Q f
      → ((a : A) → Q a → k a ≡ l a)
      → (f >>= k) ≡ (f >>= l)
  bind-same f k l yf h = fun_ext (λ m. bind-same_at f k l m (λ a r. rw (h a (yf.at m a r)) refl))
