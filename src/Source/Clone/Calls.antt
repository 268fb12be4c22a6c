-- ===== src/Source/Clone/Calls.antt =====
-- The calls that a clone and its authentication make, for a view that does not see them.
use kube_drift.Common.{ℕ, ◌≡◌, Bool, Option, none, some, List, [], ◌∷◌, Text, is_empty}
use kube_drift.Errors.{Result, ok, err}
use kube_drift.Machine.{Call, made_file, removed_file, cloned, checked_out}
use kube_drift.Machine.Rules.{Keeps, keeps_rules, Keeps-bind, Keeps-pure, Keeps-if, Keeps-option}
use kube_drift.Libraries.{Os, Git}
use kube_drift.Source.{GitAuth, SshAuth}
use kube_drift.Source.Auth.{
  write_known_hosts, parse_known_hosts, known_hosts_callback, ssh_method, scheme_method,
  auth_method,
}
use kube_drift.Source.Clone.{try_revisions, resolve_revision, check_out, git_clone}

-- The view does not see the known_hosts file and the checkout.
pub record IgnoresFiles {V : Type 0} (view : List Call → V) : Type 0 where
  pub of_made_file : (r : Result Text) (cs : List Call) → view (made_file r ∷ cs) ≡ view cs
  pub of_removed_file :
      (f : Text) (r : Result (Unit {0})) (cs : List Call) → view (removed_file f r ∷ cs) ≡ view cs
  pub of_checked_out :
      (hash : Text) (r : Result (Unit {0})) (cs : List Call)
      → view (checked_out hash r ∷ cs) ≡ view cs

-- The view does not see the clone either.
pub record IgnoresGit {V : Type 0} (view : List Call → V) : Type 0 where
  pub files : IgnoresFiles view
  pub of_cloned :
      (dir url : Text) (anonymous : Bool) (cs : List Call)
      → view (cloned dir url anonymous ∷ cs) ≡ view cs

module _ {S V : Type 0} {view : List Call → V} (ignores : IgnoresFiles view) (os : Os S)
    (git : Git S) where
  Keeps-write_known_hosts : (name kh : Text) → Keeps view (write_known_hosts os git name kh)
  unfolding write_known_hosts
  Keeps-write_known_hosts name kh =
      Keeps-bind _ _ (search keeps_rules)
        (elim [ ok _ ↦ search keeps_rules | err e ↦ search keeps_rules ])

  Keeps-parse_known_hosts : (name kh : Text) → Keeps view (parse_known_hosts os git name kh)
  unfolding parse_known_hosts
  Keeps-parse_known_hosts name kh = search (keeps_rules, Keeps-write_known_hosts)

  Keeps-known_hosts_callback : (kh : Text) → Keeps view (known_hosts_callback os git kh)
  unfolding known_hosts_callback
  Keeps-known_hosts_callback kh =
      search (keeps_rules, Keeps-parse_known_hosts, ignores.of_made_file, ignores.of_removed_file)
        depth 9

  Keeps-ssh_method : (a : SshAuth) → Keeps view (ssh_method os git a)
  unfolding ssh_method
  Keeps-ssh_method a = search (keeps_rules, Keeps-known_hosts_callback) depth 9

  Keeps-scheme_method : (a : GitAuth) → Keeps view (scheme_method os git a)
  unfolding scheme_method
  Keeps-scheme_method a =
      let by_ssh = Keeps-option a.ssh (ssh_method os git) _ Keeps-ssh_method (Keeps-pure none) in
      Keeps-option a.basic _ _ (λ b. search keeps_rules)
        (Keeps-if (is_empty a.bearer) _ _ by_ssh (Keeps-pure _))

  pub Keeps-auth_method : (auth : Option GitAuth) → Keeps view (auth_method os git auth)
  unfolding auth_method
  Keeps-auth_method none = search keeps_rules
  Keeps-auth_method (some a) = search Keeps-scheme_method

  Keeps-try_revisions :
      (repo : ℕ) (rev : Text) (revs : List Text) → Keeps view (try_revisions os git repo rev revs)
  unfolding try_revisions
  Keeps-try_revisions repo rev [] = search keeps_rules
  Keeps-try_revisions repo rev (next ∷ revs) =
      Keeps-bind _ _ (search keeps_rules)
        (elim [ ok hash ↦ search keeps_rules | err e ↦ Keeps-try_revisions repo next revs ])

  pub Keeps-check_out : (repo : ℕ) (ref : Text) → Keeps view (check_out os git repo ref)
  unfolding check_out resolve_revision
  Keeps-check_out repo ref =
      search (keeps_rules, Keeps-try_revisions, ignores.of_checked_out) depth 9

module _ {S V : Type 0} {view : List Call → V} (ignores : IgnoresGit view) (os : Os S)
    (git : Git S) where
  -- A clone keeps every view that does not see its calls.
  pub Keeps-git_clone :
      (dir url ref : Text) (auth : Option GitAuth) → Keeps view (git_clone os git dir url ref auth)
  unfolding git_clone
  Keeps-git_clone dir url ref auth =
      search
        (
          keeps_rules,
          Keeps-auth_method ignores.files os git,
          Keeps-check_out ignores.files os git,
          ignores.of_cloned,
        )
        depth 9
