-- ===== src/Source/Checkout/Cleanup.antt =====
-- The temporary directories of `withCheckout`.
use kube_drift.Common.{
  ◌≡◌, refl, Option, none, some, List, [], ◌∷◌, String, Text, ◌==◌, eq_refl, if◌then◌else◌, inl,
  inr,
}
use kube_drift.Errors.{Result, ok, err, Result-cases}
use kube_drift.Errors.Format.{Arg}
use kube_drift.Machine.{Call, Exec, lift, act, attempt, wrapped, ◌>>=◌, made_dir, removed_dir}
use kube_drift.Machine.Rules.{Keeps, Keeps-bind, Keeps-wrapped, keeps_rules}
use kube_drift.Machine.Successes.{KeepsIfOk, KeepsIfOk-intro, KeepsIfOk-bind}
use kube_drift.Libraries.{Os, Git, Resource}
use kube_drift.Source.{GitAuth, CloneFunc}
use kube_drift.Source.Clone.Calls.{IgnoresGit, Keeps-git_clone}
use kube_drift.Source.Checkout.{resolve_sub_path, after_cleanup, cloner, in_checkout, with_checkout}

abbrev remove : Text → List Text → List Text
remove d [] = []
remove d (e ∷ ds) = if e == d then ds else e ∷ remove d ds

-- The directories that were made and whose removal was not tried since.
abbrev pub pending : List Call → List Text
pending [] = []
pending (made_dir (ok d) ∷ cs) = d ∷ pending cs
pending (removed_dir d r ∷ cs) = remove d (pending cs)
pending (_ ∷ cs) = pending cs

-- The directories that were made and not removed since: a removal that fails leaves its directory.
abbrev pub leaked : List Call → List Text
leaked [] = []
leaked (made_dir (ok d) ∷ cs) = d ∷ leaked cs
leaked (removed_dir d (ok _) ∷ cs) = remove d (leaked cs)
leaked (_ ∷ cs) = leaked cs

-- The shape of a function that makes a directory and defers its removal.
module _ {S A B : Type 0} (format : String) (args : List Arg) (make : S → Result Text × S)
    (body : Text → Exec S A) (rm : Text → S → Result (Unit {0}) × S)
    (after : Text → Result (Unit {0}) → Result A → Result B) where
  abbrev pub bracket : Exec S B
  bracket = do
    dir ← wrapped format args (act made_dir make)
    outcome ← attempt (body dir)
    cleaned ← attempt (act (removed_dir dir) (rm dir))
    lift (after dir cleaned outcome)

  pub pending-bracket : ((dir : Text) → Keeps pending (body dir)) → Keeps pending bracket
  unfolding ◌>>=◌
  pending-bracket kb = record {
    at = λ m. elim (Result-cases (make m.world).0) [
      | inl (d, made) ↦ rw made (rw (kb d).at (rw eq_refl))
      | inr (e, failed) ↦ rw failed
    ];
  }

  -- If a value comes back although a failed removal turns a value into an error, the removal went
  -- well, and the body did.
  pub leaked-bracket :
      ((dir : Text) → KeepsIfOk leaked (body dir))
      → ((dir : Text) (c : Result (Unit {0})) (r : Result A) (b : B)
          → after dir c r ≡ ok b
          → (c ≡ ok tt) × ((a : A) × (r ≡ ok a)))
      → KeepsIfOk leaked bracket
  unfolding ◌>>=◌
  leaked-bracket kb strict = record {
    at = λ m b e. elim (Result-cases (make m.world).0) [
      | inl (d, made) ↦
          let (removed, (a, fine)) = strict d _ _ b (rw made at e) in
          rw (made, removed) (rw ((kb d).at _ a fine) (rw eq_refl))
      | inr (x, failed) ↦ rw failed
    ];
  }

pub pending-IgnoresGit : IgnoresGit pending
pending-IgnoresGit = record {
  files = record {
    of_made_file = λ r cs. refl;
    of_removed_file = λ f r cs. refl;
    of_checked_out = λ hash r cs. refl;
  };
  of_cloned = λ dir url anonymous cs. refl;
}

pub leaked-IgnoresGit : IgnoresGit leaked
leaked-IgnoresGit = record {
  files = record {
    of_made_file = λ r cs. refl;
    of_removed_file = λ f r cs. refl;
    of_checked_out = λ hash r cs. refl;
  };
  of_cloned = λ dir url anonymous cs. refl;
}

-- An injected clone that keeps a view; the default one is `git_clone`.
abbrev pub CloneKeeps : {S V : Type 0} → (List Call → V) → Option (CloneFunc S) → Type 0
CloneKeeps view none = Unit
CloneKeeps view (some clone) =
    (dir url ref : Text) (auth : Option GitAuth) → Keeps view (clone dir url ref auth)

-- A view to which a directory that was made and removed again leaves nothing.
pub record KeepsBrackets {V : Type 0} (view : List Call → V) : Type 1 where
  pub of_bracket :
      {S A B : Type 0} (format : String) (args : List Arg) (make : S → Result Text × S)
      (body : Text → Exec S A) (rm : Text → S → Result (Unit {0}) × S)
      (after : Text → Result (Unit {0}) → Result A → Result B)
      → ((dir : Text) → Keeps view (body dir))
      → Keeps view (bracket format args make body rm after)

pub pending-KeepsBrackets : KeepsBrackets pending
pending-KeepsBrackets = record { of_bracket = pending-bracket }

-- A view that sees no directory at all.
pub KeepsBrackets-intro :
    {V : Type 0} (view : List Call → V)
    → ((r : Result Text) (cs : List Call) → view (made_dir r ∷ cs) ≡ view cs)
    → ((d : Text) (r : Result (Unit {0})) (cs : List Call) → view (removed_dir d r ∷ cs) ≡ view cs)
    → KeepsBrackets view
KeepsBrackets-intro view of_made of_removed = record {
  of_bracket =
      λ format args make body rm after kb. search (keeps_rules, of_made, of_removed, kb) depth 12;
}

pub Keeps-cloner :
    {S V : Type 0} {view : List Call → V} (os : Os S) (git : Git S) (clone : Option (CloneFunc S))
    (dir url ref : Text) (auth : Option GitAuth)
    → IgnoresGit view
    → CloneKeeps view clone
    → Keeps view (cloner os git clone dir url ref auth)
unfolding cloner
Keeps-cloner os git none dir url ref auth ignores h =
    Keeps-git_clone ignores os git dir url ref auth
Keeps-cloner os git (some clone) dir url ref auth ignores h = h dir url ref auth

module _ {S V : Type 0} {view : List Call → V} (os : Os S) (git : Git S) where
  Keeps-resolve_sub_path : (root sub : Text) → Keeps view (resolve_sub_path os root sub)
  unfolding resolve_sub_path
  Keeps-resolve_sub_path root sub = search keeps_rules

  Keeps-in_checkout :
      (dir url ref path : Text) (auth : Option GitAuth) (clone : Option (CloneFunc S))
      (fn : Text → Exec S (List Resource))
      → Keeps view (cloner os git clone dir url ref auth)
      → ((p : Text) → Keeps view (fn p))
      → Keeps view (in_checkout os git dir url ref path auth (cloner os git clone) fn)
  unfolding in_checkout
  Keeps-in_checkout dir url ref path auth clone fn cloned kfn =
      Keeps-bind _ _ (Keeps-wrapped _ _ _ cloned)
        (λ _. Keeps-bind _ _ (Keeps-resolve_sub_path dir path) kfn)

module _ {S : Type 0} (os : Os S) (git : Git S) (url ref path : Text) (auth : Option GitAuth)
    (clone : Option (CloneFunc S)) (fn : Text → Exec S (List Resource)) where
  pub Keeps-with_checkout :
      {V : Type 0} {view : List Call → V}
      → KeepsBrackets view
      → ((dir : Text) → Keeps view (cloner os git clone dir url ref auth))
      → ((p : Text) → Keeps view (fn p))
      → Keeps view (with_checkout os git url ref path auth clone fn)
  unfolding with_checkout
  Keeps-with_checkout brackets cloned kfn =
      brackets.of_bracket _ _ _ _ _ _
        (λ dir. Keeps-in_checkout os git dir url ref path auth clone fn (cloned dir) kfn)

  after_cleanup_strict :
      (dir : Text) (c : Result (Unit {0})) (r : Result (List Resource)) (b : List Resource)
      → after_cleanup dir c r ≡ ok b
      → (c ≡ ok tt) × ((a : List Resource) × (r ≡ ok a))
  unfolding after_cleanup
  after_cleanup_strict dir (ok tt) (ok a) b h = (refl, (a, refl))
  after_cleanup_strict dir (err e) (ok a) b h = cc
  after_cleanup_strict dir (ok tt) (err x) b h = cc
  after_cleanup_strict dir (err e) (err x) b h = cc

  -- Resources come back only if no directory stays behind. An injected clone and the function that
  -- loads from the checkout leave none themselves, if they succeed.
  pub leaked-with_checkout :
      CloneKeeps leaked clone
      → ((p : Text) → KeepsIfOk leaked (fn p))
      → KeepsIfOk leaked (with_checkout os git url ref path auth clone fn)
  unfolding with_checkout in_checkout
  leaked-with_checkout h kfn =
      leaked-bracket _ _ _ _ _ _
        (λ dir.
          KeepsIfOk-bind _ _
            (KeepsIfOk-intro _ (
              Keeps-wrapped _ _ _ (Keeps-cloner os git clone dir url ref auth leaked-IgnoresGit h)))
            (λ _.
              KeepsIfOk-bind _ _ (KeepsIfOk-intro _ (Keeps-resolve_sub_path os git dir path)) kfn))
        after_cleanup_strict
