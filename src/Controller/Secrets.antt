-- ===== src/Controller/Secrets.antt =====
-- The credentials that `resolveGitAuth` of internal/controller/driftcheck_controller.go reads from a
-- Secret.
pub mod Schemes
pub mod Cloning
pub mod Complaints
use kube_drift.Common.{
  Option, none, some, List, [], ◌∷◌, ◌++◌, String, Text, text, is_empty, trim_space, trim_line_end,
  if◌then◌else◌,
}
use kube_drift.Errors.{Result, ok, err, errorf, ◌>>=◌}
use kube_drift.Errors.Format.{str}
use kube_drift.Libraries.{Secret}
use kube_drift.Api.{GitAuthType, basic, bearer, ssh, other}
use kube_drift.Source
use kube_drift.Source.{GitAuth}
use kube_drift.Controller.ConfigMaps.{entry}

abbrev pub secret_key_username : Text
secret_key_username = text "username"

abbrev pub secret_key_password : Text
secret_key_password = text "password"

abbrev pub secret_key_bearer_token : Text
secret_key_bearer_token = text "bearerToken"

abbrev pub secret_key_identity : Text
secret_key_identity = text "identity"

abbrev pub secret_key_known_hosts : Text
secret_key_known_hosts = text "known_hosts"

-- `sec.Data[key]`: nothing where the key is missing.
unfoldable pub bytes_at : Secret → Text → Text
unfolding entry
bytes_at sec key = elim (entry key sec.entries) [ none ↦ [] | some v ↦ v ]

abbrev pub missing_key : String
missing_key = "git auth Secret %s is missing key %q"

abbrev pub missing_known_hosts : String
missing_known_hosts =
    "git auth Secret %s is missing key %q (SSH host-key verification is fail-closed)"

-- `requireStr`
unfoldable pub require_str : Text → Secret → Text → Result Text
unfolding bytes_at
require_str secret_name sec key =
    if is_empty (trim_space (bytes_at sec key))
    then err (errorf missing_key (str secret_name ∷ str key ∷ []))
    else ok (trim_space (bytes_at sec key))

-- `requireSecret`
unfoldable pub require_secret : Text → Secret → Text → Result Text
unfolding bytes_at
require_secret secret_name sec key =
    if is_empty (trim_line_end (bytes_at sec key))
    then err (errorf missing_key (str secret_name ∷ str key ∷ []))
    else ok (trim_line_end (bytes_at sec key))

-- The guards of the SSH case: the bytes as they are, unless they are blank.
unfoldable pub require_bytes : String → Text → Secret → Text → Result Text
unfolding bytes_at
require_bytes format secret_name sec key =
    if is_empty (trim_space (bytes_at sec key))
    then err (errorf format (str secret_name ∷ str key ∷ []))
    else ok (bytes_at sec key)

unfoldable pub basic_credentials : Text → Secret → Result GitAuth
unfolding require_str require_secret
basic_credentials name sec = do
  username ← require_str name sec secret_key_username
  password ← require_secret name sec secret_key_password
  let auth : Source.BasicAuth = record { username = username; password = password }
  ok (record { basic = some auth; bearer = []; ssh = none })

unfoldable pub bearer_credentials : Text → Secret → Result GitAuth
unfolding require_secret
bearer_credentials name sec = do
  token ← require_secret name sec secret_key_bearer_token
  ok (record { basic = none; bearer = token; ssh = none })

unfoldable pub ssh_credentials : Text → Secret → Result GitAuth
unfolding require_bytes
ssh_credentials name sec = do
  identity ← require_bytes missing_key name sec secret_key_identity
  known_hosts ← require_bytes missing_known_hosts name sec secret_key_known_hosts
  let auth : Source.SshAuth = record {
    user = [];
    private_key = identity;
    passphrase = trim_line_end (bytes_at sec secret_key_password);
    known_hosts = known_hosts;
  }
  ok (record { basic = none; bearer = []; ssh = some auth })

-- The `switch` on the scheme, with the name by which errors call the Secret.
unfoldable pub credentials : GitAuthType → Text → Secret → Result GitAuth
unfolding basic_credentials bearer_credentials ssh_credentials
credentials basic name sec = basic_credentials name sec
credentials bearer name sec = bearer_credentials name sec
credentials ssh name sec = ssh_credentials name sec
credentials (other t) name sec = err (errorf "unknown git auth type %q" (str t ∷ []))
