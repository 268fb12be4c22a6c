-- ===== src/Controller/Secrets/Complaints.antt =====
-- The errors of `resolveGitAuth` on a Secret.
use kube_drift.Common.{
  ◌≡◌, refl, ◌≢◌, ◌↔◌, false, [], ◌∷◌, String, Text, is_empty, trim_space, trim_line_end,
  if◌then◌else◌,
}
use kube_drift.Errors.{Error, Result, ok, err, errorf, ◌>>=◌}
use kube_drift.Errors.Format.{str}
use kube_drift.Libraries.{Secret}
use kube_drift.Api.{GitAuthType, basic, bearer, ssh, other}
use kube_drift.Controller.Secrets.{
  bytes_at, missing_key, missing_known_hosts, require_str, require_secret, require_bytes,
  basic_credentials, bearer_credentials, ssh_credentials, credentials, secret_key_username,
  secret_key_password, secret_key_bearer_token, secret_key_identity, secret_key_known_hosts,
}

-- What is reported of a key: the Secret's name and the key's, and nothing of what the Secret holds.
abbrev lacking : String → Text → Text → Error
lacking format name key = errorf format (str name ∷ str key ∷ [])

-- The first part that a scheme needs and the Secret does not give, and the report of it.
pub data Lacks (name : Text) (sec : Secret) : GitAuthType → Error → Type 0 where
  no_username :
      trim_space (bytes_at sec secret_key_username) ≡ []
      → Lacks name sec basic (lacking missing_key name secret_key_username)
  no_password :
      trim_space (bytes_at sec secret_key_username) ≢ []
      → trim_line_end (bytes_at sec secret_key_password) ≡ []
      → Lacks name sec basic (lacking missing_key name secret_key_password)
  no_token :
      trim_line_end (bytes_at sec secret_key_bearer_token) ≡ []
      → Lacks name sec bearer (lacking missing_key name secret_key_bearer_token)
  no_identity :
      trim_space (bytes_at sec secret_key_identity) ≡ []
      → Lacks name sec ssh (lacking missing_key name secret_key_identity)
  no_known_hosts :
      trim_space (bytes_at sec secret_key_identity) ≢ []
      → trim_space (bytes_at sec secret_key_known_hosts) ≡ []
      → Lacks name sec ssh (lacking missing_known_hosts name secret_key_known_hosts)
  no_scheme : (t : Text) → Lacks name sec (other t) (errorf "unknown git auth type %q" (str t ∷ []))

is_empty_of_ne : (s : Text) → s ≢ [] → is_empty s ≡ false
is_empty_of_ne [] h = absurd (h refl)
is_empty_of_ne (c ∷ s) h = refl

-- The guard of a key, by what it trims.
guarded :
    {A : Type 0} (trimmed : Text) (value : Text) (report : Error) (next : Text → Result A)
    (e : Error) (P : Error → Type 0)
    → (trimmed ≡ [] → P report)
    → (trimmed ≢ [] → next value ≡ err e → P e)
    → ((if is_empty trimmed then err report else ok value) >>= next) ≡ err e
    → P e
guarded [] value report next e P missing given h =
    let same : report ≡ e = cc in rw same at (missing refl)
guarded (c ∷ s) value report next e P missing given h = given (λ q. cc) h

credentials-Lacks :
    (t : GitAuthType) (name : Text) (sec : Secret) (e : Error)
    → credentials t name sec ≡ err e
    → Lacks name sec t e
unfolding credentials basic_credentials bearer_credentials ssh_credentials require_str
    require_secret require_bytes
credentials-Lacks basic name sec e =
    guarded (trim_space (bytes_at sec secret_key_username)) _ _ _ e (Lacks name sec basic)
      no_username
      (λ named.
        guarded (trim_line_end (bytes_at sec secret_key_password)) _ _ _ e (Lacks name sec basic)
          (no_password named) (λ given h. cc))
credentials-Lacks bearer name sec e =
    guarded (trim_line_end (bytes_at sec secret_key_bearer_token)) _ _ _ e (Lacks name sec bearer)
      no_token (λ given h. cc)
credentials-Lacks ssh name sec e =
    guarded (trim_space (bytes_at sec secret_key_identity)) _ _ _ e (Lacks name sec ssh) no_identity
      (λ named.
        guarded (trim_space (bytes_at sec secret_key_known_hosts)) _ _ _ e (Lacks name sec ssh)
          (no_known_hosts named) (λ given h. cc))
credentials-Lacks (other t) name sec e =
    let named : Lacks name sec (other t) (errorf "unknown git auth type %q" (str t ∷ [])) =
      no_scheme t in
    λ h. let same : errorf "unknown git auth type %q" (str t ∷ []) ≡ e = cc in rw same at named

credentials_of_Lacks :
    (t : GitAuthType) (name : Text) (sec : Secret) (e : Error)
    → Lacks name sec t e
    → credentials t name sec ≡ err e
unfolding credentials basic_credentials bearer_credentials ssh_credentials require_str
    require_secret require_bytes
credentials_of_Lacks _ name sec _ (no_username h) = rw h refl
credentials_of_Lacks _ name sec _ (no_password named h) = rw (is_empty_of_ne _ named) (rw h refl)
credentials_of_Lacks _ name sec _ (no_token h) = rw h refl
credentials_of_Lacks _ name sec _ (no_identity h) = rw h refl
credentials_of_Lacks _ name sec _ (no_known_hosts named h) = rw (is_empty_of_ne _ named) (rw h refl)
credentials_of_Lacks _ name sec _ (no_scheme t) = refl

-- Credentials cannot be resolved exactly when a part that the scheme needs is missing, or the scheme
-- is unknown, and the error is the report of the first such part: it names the Secret and the key,
-- and does not depend on what else the Secret holds.
pub credentials-err :
    (t : GitAuthType) (name : Text) (sec : Secret) (e : Error)
    → (credentials t name sec ≡ err e) ↔ Lacks name sec t e
credentials-err t name sec e = (credentials-Lacks t name sec e, credentials_of_Lacks t name sec e)
