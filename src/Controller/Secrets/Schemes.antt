-- ===== src/Controller/Secrets/Schemes.antt =====
-- The credentials that a Secret gives for a scheme.
use kube_drift.Common.{
  ◌≡◌, refl, ap, sym, ◌≢◌, Bool, true, false, none, some, [], String, Text, is_empty, trim_space,
  trim_line_end, if◌then◌else◌, IsBlank, trim_space-eq-nil,
}
use kube_drift.Errors.{Error, Result, ok, err, ◌>>=◌}
use kube_drift.Libraries.{Secret}
use kube_drift.Api.{GitAuthType, basic, bearer, ssh, other}
use kube_drift.Source.{GitAuth}
use kube_drift.Controller.Secrets.{
  bytes_at, missing_key, missing_known_hosts, require_str, require_secret, require_bytes,
  basic_credentials, bearer_credentials, ssh_credentials, credentials, secret_key_username,
  secret_key_password, secret_key_bearer_token, secret_key_identity, secret_key_known_hosts,
}

-- The credentials of a scheme: that scheme alone is set, from the Secret's keys, and none of the
-- parts that it needs is empty.
pub data HasScheme (sec : Secret) : GitAuthType → GitAuth → Type 0 where
  has_basic :
      (username password : Text)
      → username ≡ trim_space (bytes_at sec secret_key_username)
      → password ≡ trim_line_end (bytes_at sec secret_key_password)
      → username ≢ []
      → password ≢ []
      → HasScheme sec basic (record {
        basic = some (record { username = username; password = password });
        bearer = [];
        ssh = none;
      })
  has_bearer :
      (token : Text)
      → token ≡ trim_line_end (bytes_at sec secret_key_bearer_token)
      → token ≢ []
      → HasScheme sec bearer (record { basic = none; bearer = token; ssh = none })
  has_ssh :
      (identity passphrase known_hosts : Text)
      → identity ≡ bytes_at sec secret_key_identity
      → passphrase ≡ trim_line_end (bytes_at sec secret_key_password)
      → known_hosts ≡ bytes_at sec secret_key_known_hosts
      → ¬ IsBlank identity
      → ¬ IsBlank known_hosts
      → HasScheme sec ssh (record {
        basic = none;
        bearer = [];
        ssh = some (record {
          user = [];
          private_key = identity;
          passphrase = passphrase;
          known_hosts = known_hosts;
        });
      })

ne-nil : (s : Text) → is_empty s ≡ false → s ≢ []
ne-nil s h e = cc (h, ap is_empty e)

full_or :
    (t v : Text) (e : Error) (c : Bool) → (if c then err e else ok t) ≡ ok v → (c ≡ false) × (t ≡ v)
full_or t v e true h = cc
full_or t v e false h = (refl, cc)

require_str-ok :
    (name : Text) (sec : Secret) (key v : Text)
    → require_str name sec key ≡ ok v
    → (v ≡ trim_space (bytes_at sec key)) × (v ≢ [])
unfolding require_str
require_str-ok name sec key v h =
    let (full, same) = full_or (trim_space (bytes_at sec key)) v _ _ h in
    (sym same, rw same at (ne-nil _ full))

require_secret-ok :
    (name : Text) (sec : Secret) (key v : Text)
    → require_secret name sec key ≡ ok v
    → (v ≡ trim_line_end (bytes_at sec key)) × (v ≢ [])
unfolding require_secret
require_secret-ok name sec key v h =
    let (full, same) = full_or (trim_line_end (bytes_at sec key)) v _ _ h in
    (sym same, rw same at (ne-nil _ full))

require_bytes-ok :
    (format : String) (name : Text) (sec : Secret) (key v : Text)
    → require_bytes format name sec key ≡ ok v
    → (v ≡ bytes_at sec key) × ¬ IsBlank v
unfolding require_bytes
require_bytes-ok format name sec key v h =
    let (full, same) = full_or (bytes_at sec key) v _ _ h in
    let nonblank : ¬ IsBlank (bytes_at sec key) =
      λ blank. ne-nil _ full ((trim_space-eq-nil (bytes_at sec key)).1 blank) in
    (sym same, rw same at nonblank)

-- A step of a chain of results that came out well.
bind-ok :
    {A B : Type 0} (r : Result A) (f : A → Result B) (b : B)
    → (r >>= f) ≡ ok b
    → (a : A) × (r ≡ ok a) × (f a ≡ ok b)
bind-ok (ok a) f b h = (a, refl, h)
bind-ok (err e) f b h = cc

built :
    {sec : Secret} {t : GitAuthType} {a b : GitAuth}
    → HasScheme sec t a
    → ok a ≡ ok b
    → HasScheme sec t b
built {a = a} {b = b} h e = let same : a ≡ b = cc in rw same at h

-- Credentials that are resolved are those of the scheme that the spec names, and no other; a scheme
-- with a missing part, and an unknown scheme, give an error and no credentials. In particular SSH
-- needs host keys, and its passphrase is the password.
pub credentials-HasScheme :
    (t : GitAuthType) (name : Text) (sec : Secret) (a : GitAuth)
    → credentials t name sec ≡ ok a
    → HasScheme sec t a
unfolding credentials basic_credentials bearer_credentials ssh_credentials
credentials-HasScheme basic name sec a h =
    let (username, named, h1) = bind-ok _ _ a h in
    let (password, given, h2) = bind-ok _ _ a h1 in
    let (eu, fu) = require_str-ok name sec secret_key_username username named in
    let (ep, fp) = require_secret-ok name sec secret_key_password password given in
    built (has_basic username password eu ep fu fp) h2
credentials-HasScheme bearer name sec a h =
    let (token, given, h1) = bind-ok _ _ a h in
    let (et, ft) = require_secret-ok name sec secret_key_bearer_token token given in
    built (has_bearer token et ft) h1
credentials-HasScheme ssh name sec a h =
    let (identity, found, h1) = bind-ok _ _ a h in
    let (known_hosts, known, h2) = bind-ok _ _ a h1 in
    let (ei, fi) = require_bytes-ok missing_key name sec secret_key_identity identity found in
    let (ek, fk) =
      require_bytes-ok missing_known_hosts name sec secret_key_known_hosts known_hosts known in
    built (has_ssh identity _ known_hosts ei refl ek fi fk) h2
credentials-HasScheme (other t) name sec a h = cc
