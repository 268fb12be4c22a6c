-- ===== src/Source/Clone.antt =====
-- `gitClone` and `resolveRevision` of internal/source/git.go
pub mod Calls
pub mod Revisions
use kube_drift.Common.{
  ℕ, Bool, true, false, Option, none, some, List, [], ◌∷◌, ◌++◌, Text, text, is_empty,
  if◌then◌else◌,
}
use kube_drift.Errors.{Result, ok, err}
use kube_drift.Errors.Format.{str}
use kube_drift.Machine.{Exec, pure, ask, act, attempt, wrapped, ◌>>=◌, ◌>>◌, cloned, checked_out}
use kube_drift.Libraries.{Os, Git, AuthMethod}
use kube_drift.Source.{GitAuth, CloneFunc}
use kube_drift.Source.Auth.{auth_method}

abbrev pub is_anonymous : Option AuthMethod → Bool
is_anonymous none = true
is_anonymous (some am) = false

module _ {S : Type 0} (os : Os S) (git : Git S) where
  -- The loop over the revisions: the first hash, or the last error.
  unfoldable pub try_revisions : ℕ → Text → List Text → Exec S Text
  try_revisions repo rev [] = ask (git.resolve_revision repo rev)
  try_revisions repo rev (next ∷ revs) = do
    found ← attempt (ask (git.resolve_revision repo rev))
    elim found [ ok hash ↦ pure hash | err e ↦ try_revisions repo next revs ]

  unfoldable pub resolve_revision : ℕ → Text → Exec S Text
  unfolding try_revisions
  resolve_revision repo ref = try_revisions repo ref ((text "origin/" ++ ref) ∷ [])

  unfoldable pub check_out : ℕ → Text → Exec S (Unit {0})
  unfolding resolve_revision
  check_out repo ref = do
    hash ← wrapped "resolve ref %q: %w" (str ref ∷ []) (resolve_revision repo ref)
    wt ← wrapped "open worktree: %w" [] (ask (git.worktree repo))
    wrapped "checkout %q: %w" (str ref ∷ []) (act (checked_out hash) (git.checkout wt hash))

  unfoldable pub git_clone : CloneFunc S
  unfolding check_out auth_method
  git_clone dir url ref auth = do
    am ← wrapped "git auth: %w" [] (auth_method os git auth)
    repo ← act (λ _. cloned dir url (is_anonymous am)) (git.plain_clone dir url am)
    if is_empty ref then pure tt else check_out repo ref
