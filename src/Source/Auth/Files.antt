-- ===== src/Source/Auth/Files.antt =====
-- The temporary file of the known_hosts.
use kube_drift.Common.{
  refl, Option, none, some, List, [], ◌∷◌, Text, text, ◌==◌, eq_refl, is_empty, if◌then◌else◌, inl,
  inr,
}
use kube_drift.Errors.{ok, err, Result-cases}
use kube_drift.Machine.{Call, effect, ◌>>=◌, made_file, removed_file}
use kube_drift.Machine.Rules.{
  Keeps, Keeps-bind, Keeps-pure, Keeps-if, Keeps-option, Keeps-fail, keeps_rules,
}
use kube_drift.Libraries.{Os, Git}
use kube_drift.Source.{GitAuth, SshAuth}
use kube_drift.Source.Auth.{
  write_known_hosts, parse_known_hosts, known_hosts_callback, ssh_method, scheme_method,
  auth_method,
}

abbrev remove : Text → List Text → List Text
remove f [] = []
remove f (g ∷ fs) = if g == f then fs else g ∷ remove f fs

-- The files that were made and whose removal was not tried since.
abbrev pub open_files : List Call → List Text
open_files [] = []
open_files (made_file (ok f) ∷ cs) = f ∷ open_files cs
open_files (removed_file f r ∷ cs) = remove f (open_files cs)
open_files (_ ∷ cs) = open_files cs

module _ {S : Type 0} (os : Os S) (git : Git S) where
  Keeps-parse_known_hosts : (name kh : Text) → Keeps open_files (parse_known_hosts os git name kh)
  unfolding parse_known_hosts write_known_hosts
  Keeps-parse_known_hosts name kh =
      Keeps-bind _ _
        (Keeps-bind _ _ (search keeps_rules)
          (elim [ ok _ ↦ search keeps_rules | err e ↦ search keeps_rules ]))
        (λ _. search keeps_rules)

  Keeps-known_hosts_callback : (kh : Text) → Keeps open_files (known_hosts_callback os git kh)
  unfolding known_hosts_callback ◌>>=◌ effect
  Keeps-known_hosts_callback kh =
      let prefix = text "kube-drift-known-hosts-" in
      Keeps-if (is_empty kh) _ _ (Keeps-fail _) (record {
        at = λ m. elim (Result-cases (os.create_temp prefix m.world).0) [
          | inl (f, made) ↦ rw made (rw (Keeps-parse_known_hosts f kh).at (rw eq_refl refl))
          | inr (e, failed) ↦ rw failed refl
        ];
      })

  Keeps-ssh_method : (a : SshAuth) → Keeps open_files (ssh_method os git a)
  unfolding ssh_method
  Keeps-ssh_method a = search (keeps_rules, Keeps-known_hosts_callback) depth 9

  -- Whatever fails, the removal of each known_hosts file that authentication makes has been tried
  -- when it returns; the outcome of the removal is dropped.
  pub open_files-auth_method : (auth : Option GitAuth) → Keeps open_files (auth_method os git auth)
  unfolding auth_method scheme_method
  open_files-auth_method none = Keeps-pure none
  open_files-auth_method (some a) =
      let by_ssh = Keeps-option a.ssh (ssh_method os git) _ Keeps-ssh_method (Keeps-pure none) in
      Keeps-option a.basic _ _ (λ b. Keeps-pure _)
        (Keeps-if (is_empty a.bearer) _ _ by_ssh (Keeps-pure _))
