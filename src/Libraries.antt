-- ===== src/Libraries.antt =====
-- The code that the repository calls and does not contain, over an unknown state `S` of the outside
-- world: parameters of the model. A call gives its `(value, error)` and the next state. A handle of
-- a library's own object is a number. What is assumed of a library is said where it is used.
use kube_drift.Common.{ℕ, Bool, Option, List, Text}
use kube_drift.Errors.{Error, Result}
use kube_drift.Api.{LabelSelector, Condition, DriftCheck}
use kube_drift.Machine.{Exec, Request}

pub record NamespacedName : Type 0 where
  pub name : Text
  pub namespace : Text

-- corev1.ConfigMap: the maps `Data` and `BinaryData` as their entries, in any order.
pub record ConfigMap : Type 0 where
  pub name : Text
  pub namespace : Text
  pub texts : List (Text × Text)
  pub binaries : List (Text × Text)

-- corev1.Secret: the map `Data` as its entries.
pub record Secret : Type 0 where
  pub entries : List (Text × Text)

abbrev pub Labels : Type 0
Labels = List (Text × Text)

-- labels.Selector, by its method `Matches`.
abbrev pub Selector : Type 0
Selector = Labels → Bool

-- k8s.io/apimachinery, sigs.k8s.io/controller-runtime
pub record Kube (S : Type 0) : Type 0 where
  pub is_not_found : Error → Bool
  pub is_forbidden : Error → Bool
  pub is_unauthorized : Error → Bool
  pub get_drift_check : NamespacedName → S → Result DriftCheck × S
  pub get_config_map : NamespacedName → S → Result ConfigMap × S
  pub get_secret : NamespacedName → S → Result Secret × S
  -- On success the object that the server answers with, which replaces the caller's.
  pub update_status : DriftCheck → S → Result DriftCheck × S
  pub emit_event : Text → Text → Text → S → S
  pub now : S → ℕ × S
  pub set_status_condition : List Condition → Condition → List Condition
  pub label_selector_as_selector : LabelSelector → Result Selector

-- github.com/prometheus/client_golang: the gauge vector over (driftcheck, namespace, status).
pub record GaugeVec (S : Type 0) : Type 0 where
  pub set : Text → Text → Text → ℕ → S → S
  pub delete_partial_match : Text → Text → S → S
  pub value : Text → Text → Text → S → Option ℕ

-- unstructured.Unstructured, by its labels; the rest of it is opaque.
pub record Object : Type 0 where
  pub labels : Labels
  pub content : Text

-- The Resource of kube-diff's package source.
pub record Resource : Type 0 where
  pub api_version : Text
  pub kind : Text
  pub name : Text
  pub namespace : Text
  pub object : Option Object

-- diff.Result; its status is one of the strings of the API's `DriftStatus`.
pub record DiffResult : Type 0 where
  pub api_version : Text
  pub kind : Text
  pub name : Text
  pub namespace : Text
  pub status : Text

-- github.com/somaz94/kube-diff
pub record KubeDiff (S : Type 0) : Type 0 where
  pub bytes_source_load : Text → Result (List Resource)
  pub file_source_load : Text → S → Result (List Resource) × S
  -- `engine.Run` over the `Load` of a source
  pub engine_run : Exec S (List Resource) → Exec S (List DiffResult)

-- The operating system, and github.com/cyphar/filepath-securejoin on it.
pub record Os (S : Type 0) : Type 0 where
  pub mkdir_temp : Text → S → Result Text × S
  pub remove_all : Text → S → Result (Unit {0}) × S
  pub create_temp : Text → S → Result Text × S
  pub write_file : Text → Text → S → Result (Unit {0}) × S
  pub close_file : Text → S → Result (Unit {0}) × S
  pub remove_file : Text → S → Result (Unit {0}) × S
  pub read_file : Text → S → Result Text × S
  pub secure_join : Text → Text → S → Result Text × S

-- transport.AuthMethod: the three that the program builds. The SSH one has the user, the handle of
-- the parsed key, and the handle of its host-key callback.
pub data AuthMethod : Type 0 where
  basic_auth : Text → Text → AuthMethod
  token_auth : Text → AuthMethod
  public_keys : Text → ℕ → ℕ → AuthMethod

-- github.com/go-git/go-git, golang.org/x/crypto
pub record Git (S : Type 0) : Type 0 where
  pub plain_clone : Text → Text → Option AuthMethod → S → Result ℕ × S
  pub resolve_revision : ℕ → Text → S → Result Text × S
  pub worktree : ℕ → S → Result ℕ × S
  pub checkout : ℕ → Text → S → Result (Unit {0}) × S
  pub new_public_keys : Text → Text → Text → Result ℕ
  pub known_hosts : Text → S → Result ℕ × S

-- net/http and encoding/json
pub record Client : Type 0 where
  pub timeout : ℕ

pub record Http (S : Type 0) : Type 0 where
  pub default_client : Client
  pub new_request : Text → Text → Text → Result Request
  -- The status code of the response.
  pub do_request : Client → Request → S → Result ℕ × S

-- crypto/sha256 over the UTF-8 form of a text.
pub record Crypto : Type 0 where
  pub sha256 : Text → List ℕ
