-- ===== src/Source/Checkout/Paths.antt =====
-- The paths that are loaded from a checkout.
use kube_drift.Common.{◌≡◌, refl, Option, List, [], ◌∷◌, Text, text, is_empty}
use kube_drift.Errors.{ok}
use kube_drift.Errors.Format.{str}
use kube_drift.Machine.{Machine, Exec, ask, wrapped, ◌>>=◌}
use kube_drift.Machine.Rules.{Yields, Yields-pure, Yields-if, Yields-wrapped}
use kube_drift.Machine.Sameness.{bind-same_at}
use kube_drift.Libraries.{Os, Git, Resource}
use kube_drift.Source.{GitAuth, CloneFunc}
use kube_drift.Source.Checkout.{resolve_sub_path, cloner, in_checkout, with_checkout}

-- What securejoin documents: a joined path is within its root. A root is within itself.
pub record Confines {S : Type 0} (os : Os S) (Within : Text → Text → Type 0) : Type 0 where
  pub of_root : (root : Text) → Within root root
  pub of_join : (root sub p : Text) (s : S) → (os.secure_join root sub s).0 ≡ ok p → Within root p

module _ {S : Type 0} (os : Os S) (git : Git S) (Within : Text → Text → Type 0)
    (confined : Confines os Within) where
  pub Yields-resolve_sub_path :
      (root sub : Text) → Yields (Within root) (resolve_sub_path os root sub)
  unfolding resolve_sub_path ask
  Yields-resolve_sub_path root sub =
      Yields-if (is_empty sub) _ _ (λ _. Yields-pure _ (confined.of_root root))
        (λ _. Yields-wrapped _ _ _ (record { at = λ m p e. confined.of_join root sub p m.world e }))

  module _ (dir url ref path : Text) (auth : Option GitAuth) (clone : Option (CloneFunc S))
      (fn gn : Text → Exec S (List Resource)) where
    in_checkout_cong :
        ((p : Text) (m : Machine S) → Within dir p → fn p m ≡ gn p m)
        → (m : Machine S)
        → in_checkout os git dir url ref path auth (cloner os git clone) fn m
          ≡ in_checkout os git dir url ref path auth (cloner os git clone) gn m
    unfolding in_checkout
    in_checkout_cong same m =
        let clone_step =
          wrapped "clone %s: %w" (str url ∷ []) (cloner os git clone dir url ref auth) in
        let sub = resolve_sub_path os dir path in
        bind-same_at clone_step (λ _. sub >>= fn) (λ _. sub >>= gn) m
          (λ _ _.
            bind-same_at sub fn gn (clone_step m).1
              (λ p e. same p _ ((Yields-resolve_sub_path dir path).at (clone_step m).1 p e)))

    -- What is loaded from a checkout is at a path within the directory that was made for it: two
    -- functions that agree on those paths load the same, whatever they do elsewhere. Securejoin
    -- confines the paths that it joins.
    pub with_checkout_cong :
        (m : Machine S)
        → (os.mkdir_temp (text "kube-drift-git-") m.world).0 ≡ ok dir
        → ((p : Text) (m : Machine S) → Within dir p → fn p m ≡ gn p m)
        → with_checkout os git url ref path auth clone fn m
          ≡ with_checkout os git url ref path auth clone gn m
    unfolding with_checkout ◌>>=◌
    with_checkout_cong m made same = rw made (rw (in_checkout_cong same) refl)
