-- ===== src/Source/Auth.antt =====
-- `authMethod` and `knownHostsCallback` of internal/source/git.go
pub mod Files
use kube_drift.Common.{ℕ, Option, none, some, [], ◌∷◌, Text, text, is_empty, if◌then◌else◌}
use kube_drift.Errors.{Result, ok, err, errorf}
use kube_drift.Machine.{
  Exec, pure, fail, lift, ask, act, attempt, wrapped, effect, ◌>>=◌, ◌>>◌, made_file, removed_file,
}
use kube_drift.Libraries.{Os, Git, AuthMethod, basic_auth, token_auth, public_keys}
use kube_drift.Source.{GitAuth, SshAuth}

module _ {S : Type 0} (os : Os S) (git : Git S) where
  -- A failed write closes the file and drops the error of the close.
  unfoldable pub write_known_hosts : Text → Text → Exec S (Unit {0})
  write_known_hosts name kh = do
    written ← attempt (ask (os.write_file name kh))
    elim written [
      | ok _ ↦ pure tt
      | err e ↦ do
        attempt (ask (os.close_file name))
        wrapped "write known_hosts temp file: %w" [] (fail e)
    ]

  unfoldable pub parse_known_hosts : Text → Text → Exec S ℕ
  unfolding write_known_hosts
  parse_known_hosts name kh = do
    write_known_hosts name kh
    wrapped "close known_hosts temp file: %w" [] (ask (os.close_file name))
    wrapped "parse known_hosts: %w" [] (ask (git.known_hosts name))

  -- The deferred `os.Remove` runs whatever the outcome, and its error is dropped.
  unfoldable pub known_hosts_callback : Text → Exec S ℕ
  unfolding parse_known_hosts
  known_hosts_callback kh =
      if is_empty kh
      then fail (errorf "ssh auth requires known_hosts (host-key verification is fail-closed)" [])
      else do
        name ←
            wrapped "create known_hosts temp file: %w" []
              (act made_file (os.create_temp (text "kube-drift-known-hosts-")))
        outcome ← attempt (parse_known_hosts name kh)
        attempt (act (removed_file name) (os.remove_file name))
        lift outcome

  unfoldable pub ssh_method : SshAuth → Exec S (Option AuthMethod)
  unfolding known_hosts_callback
  ssh_method ssh = do
    let user = if is_empty ssh.user then text "git" else ssh.user
    key ←
        wrapped "parse ssh private key: %w" []
          (lift (git.new_public_keys user ssh.private_key ssh.passphrase))
    callback ← known_hosts_callback ssh.known_hosts
    pure (some (public_keys user key callback))

  -- The cases of the `switch`, in its order.
  unfoldable pub scheme_method : GitAuth → Exec S (Option AuthMethod)
  unfolding ssh_method
  scheme_method auth = elim auth.basic [
    | some b ↦ pure (some (basic_auth b.username b.password))
    | none ↦
        if is_empty auth.bearer
        then (elim auth.ssh [ some ssh ↦ ssh_method ssh | none ↦ pure none ])
        else pure (some (token_auth auth.bearer))
  ]

  unfoldable pub auth_method : Option GitAuth → Exec S (Option AuthMethod)
  unfolding scheme_method
  auth_method none = pure none
  auth_method (some auth) = scheme_method auth
