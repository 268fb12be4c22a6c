-- ===== src/Source/Checkout.antt =====
-- `withCheckout` and `resolveSubPath` of internal/source/git.go
pub mod Cleanup
pub mod Paths
use kube_drift.Common.{Option, none, some, List, [], ◌∷◌, Text, text, is_empty, if◌then◌else◌}
use kube_drift.Errors.{Result, ok, err, wrapf}
use kube_drift.Errors.Format.{str}
use kube_drift.Machine.{
  Exec, pure, lift, ask, act, attempt, wrapped, ◌>>=◌, ◌>>◌, made_dir, removed_dir,
}
use kube_drift.Libraries.{Os, Git, Resource}
use kube_drift.Source.{GitAuth, CloneFunc}
use kube_drift.Source.Clone.{git_clone}

module _ {S : Type 0} (os : Os S) where
  unfoldable pub resolve_sub_path : Text → Text → Exec S Text
  resolve_sub_path root sub =
      if is_empty sub
      then pure root
      else wrapped "resolve sub-path %q: %w" (str sub ∷ []) (ask (os.secure_join root sub))

-- What the deferred function makes of the outcome: a failed cleanup fails a run that went well.
unfoldable pub after_cleanup {ℓ} : {A : Type ℓ} → Text → Result (Unit {0}) → Result A → Result A
after_cleanup dir (err rerr) (ok a) = err (wrapf "cleanup checkout %s: %w" (str dir ∷ []) rerr)
after_cleanup dir (err rerr) (err e) = err e
after_cleanup dir (ok _) outcome = outcome

module _ {S : Type 0} (os : Os S) (git : Git S) where
  unfoldable pub cloner : Option (CloneFunc S) → CloneFunc S
  cloner none = git_clone os git
  cloner (some clone) = clone

  -- What runs between the temporary directory's making and its removal.
  unfoldable pub in_checkout :
      Text
      → Text
      → Text
      → Text
      → Option GitAuth
      → CloneFunc S
      → (Text → Exec S (List Resource))
      → Exec S (List Resource)
  unfolding resolve_sub_path
  in_checkout dir url ref path auth clone fn = do
    wrapped "clone %s: %w" (str url ∷ []) (clone dir url ref auth)
    load_path ← resolve_sub_path os dir path
    fn load_path

  unfoldable pub with_checkout :
      Text
      → Text
      → Text
      → Option GitAuth
      → Option (CloneFunc S)
      → (Text → Exec S (List Resource))
      → Exec S (List Resource)
  unfolding in_checkout after_cleanup cloner
  with_checkout url ref path auth clone fn = do
    dir ← wrapped "create temp dir: %w" [] (act made_dir (os.mkdir_temp (text "kube-drift-git-")))
    outcome ← attempt (in_checkout dir url ref path auth (cloner clone) fn)
    cleaned ← attempt (act (removed_dir dir) (os.remove_all dir))
    lift (after_cleanup dir cleaned outcome)
