-- ===== src/Source/Clone/Revisions.antt =====
-- What a clone that succeeds has checked out.
use kube_drift.Common.{
  ℕ, ◌≡◌, refl, ap, ◌≢◌, ◌⊎◌, inl, inr, Option, [], ◌∷◌, ◌++◌, Text, text, is_empty, if◌then◌else◌,
}
use kube_drift.Errors.{Error, ok, err, Result-cases}
use kube_drift.Machine.{Machine, pure, ◌>>=◌, cloned, checked_out}
use kube_drift.Libraries.{Os, Git, AuthMethod}
use kube_drift.Source.{GitAuth}
use kube_drift.Source.Auth.{auth_method}
use kube_drift.Source.Clone.{is_anonymous, try_revisions, resolve_revision, check_out, git_clone}

module _ {S : Type 0} (os : Os S) (git : Git S) where
  -- A reference stands for a commit: as it is, or else as a branch of the remote.
  pub data Resolves (repo : ℕ) (ref : Text) (s : S) (hash : Text) : Type 0 where
    verbatim : (git.resolve_revision repo ref s).0 ≡ ok hash → Resolves repo ref s hash
    of_remote :
        (e : Error)
        → (git.resolve_revision repo ref s).0 ≡ err e
        → (git.resolve_revision repo (text "origin/" ++ ref) (git.resolve_revision repo ref s).1).0
          ≡ ok hash
        → Resolves repo ref s hash

  -- The run of `resolveRevision` calls nothing that is noted.
  resolve_revision-ok :
      (repo : ℕ) (ref : Text) (m : Machine S)
      → ((hash : Text) × ((resolve_revision os git repo ref m).0 ≡ ok hash)
          × Resolves repo ref m.world hash
          × ((resolve_revision os git repo ref m).1.calls ≡ m.calls))
        ⊎ (e : Error) × ((resolve_revision os git repo ref m).0 ≡ err e)
  unfolding resolve_revision try_revisions ◌>>=◌
  resolve_revision-ok repo ref m = elim (Result-cases (git.resolve_revision repo ref m.world).0) [
    | inl (hash, found) ↦ inl (hash, rw found refl, verbatim found, rw found refl)
    | inr (e, missing) ↦
        let next =
          git.resolve_revision repo (text "origin/" ++ ref)
            (git.resolve_revision repo ref m.world).1 in
        elim (Result-cases next.0) [
          | inl (hash, found) ↦
              inl (hash, rw missing found, of_remote e missing found, rw missing refl)
          | inr (x, unknown) ↦ inr (x, rw missing unknown)
        ]
  ]

  check_out-ok :
      (repo : ℕ) (ref : Text) (m : Machine S)
      → (check_out os git repo ref m).0 ≡ ok tt
      → (hash : Text) × Resolves repo ref m.world hash
        × ((check_out os git repo ref m).1.calls ≡ checked_out hash (ok tt) ∷ m.calls)
  unfolding check_out ◌>>=◌
  check_out-ok repo ref m h = elim (resolve_revision-ok repo ref m) [
    | inr (e, unknown) ↦ cc (rw unknown at h)
    | inl (hash, found, resolves, quiet) ↦
        let m1 = (resolve_revision os git repo ref m).1 in
        elim (Result-cases (git.worktree repo m1.world).0) [
          | inr (e, closed) ↦ cc (rw closed at rw found at h)
          | inl (wt, opened) ↦
              let s = (git.worktree repo m1.world).1 in
              elim (Result-cases (git.checkout wt hash s).0) [
                | inr (e, failed) ↦ cc (rw failed at rw opened at rw found at h)
                | inl (tt, done) ↦ (
                  hash,
                  resolves,
                  rw found (rw opened (rw done (ap (λ cs. checked_out hash (ok tt) ∷ cs) quiet))),
                )
              ]
        ]
  ]

  -- What follows the clone.
  checked-ok :
      (repo : ℕ) (ref : Text) (m : Machine S)
      → let (done, m') = (if is_empty ref then pure tt else check_out os git repo ref) m in
        done ≡ ok tt
        → ((ref ≡ []) × (m'.calls ≡ m.calls))
          ⊎ (hash : Text) × (ref ≢ [])
            × Resolves repo ref m.world hash
            × (m'.calls ≡ checked_out hash (ok tt) ∷ m.calls)
  unfolding pure
  checked-ok repo [] m h = inl (refl, refl)
  checked-ok repo (c ∷ ref) m h =
      let (hash, resolves, noted) = check_out-ok repo (c ∷ ref) m h in
      inr (hash, λ e. cc, resolves, noted)

  -- A clone that succeeds has cloned the URL into the directory once, with the credentials' method or
  -- anonymously without one, and then, if a reference is given, checked out, with success, the commit that it stands
  -- for: as it is, or else as a branch of the remote. Without a reference it checks out nothing.
  pub git_clone-ok :
      (dir url ref : Text) (auth : Option GitAuth) (m : Machine S)
      → (git_clone os git dir url ref auth m).0 ≡ ok tt
      → let (found, m1) = auth_method os git auth m in
        (am : Option AuthMethod) × (repo : ℕ) × (found ≡ ok am)
        × ((git.plain_clone dir url am m1.world).0 ≡ ok repo)
        × let s = (git.plain_clone dir url am m1.world).1 in
          let before = cloned dir url (is_anonymous am) ∷ m1.calls in
          let after = (git_clone os git dir url ref auth m).1.calls in
          ((ref ≡ []) × (after ≡ before))
          ⊎ (hash : Text) × (ref ≢ [])
            × Resolves repo ref s hash
            × (after ≡ checked_out hash (ok tt) ∷ before)
  unfolding git_clone ◌>>=◌
  git_clone-ok dir url ref auth m h = elim (Result-cases (auth_method os git auth m).0) [
    | inr (e, refused) ↦ cc (rw refused at h)
    | inl (am, found) ↦
        let m1 = (auth_method os git auth m).1 in
        elim (Result-cases (git.plain_clone dir url am m1.world).0) [
          | inr (e, failed) ↦ cc (rw failed at rw found at h)
          | inl (repo, got) ↦
              let checked = checked-ok repo ref _ (rw got at rw found at h) in
              (am, repo, found, got, rw found (rw got checked))
        ]
  ]
