-- ===== src/Source.antt =====
-- internal/source: the desired-state backends. This file has their data; `load` is in Source/Load.
pub mod Auth
pub mod Clone
pub mod Checkout
pub mod Target
pub mod Values
pub mod Charts
pub mod Dependencies
pub mod Helm
pub mod Load
use kube_drift.Common.{Bool, Option, List, Text}
use kube_drift.Errors.{Result}
use kube_drift.Machine.{Exec}
use kube_drift.Libraries.{Selector}

pub record BasicAuth : Type 0 where
  pub username : Text
  pub password : Text

pub record SshAuth : Type 0 where
  pub user : Text
  pub private_key : Text
  pub passphrase : Text
  pub known_hosts : Text

-- Resolved credentials.
pub record GitAuth : Type 0 where
  pub basic : Option BasicAuth
  pub bearer : Text
  pub ssh : Option SshAuth

-- dir, url, ref and auth; the context is not modelled.
abbrev pub CloneFunc : Type 0 → Type 0
CloneFunc S = Text → Text → Text → Option GitAuth → Exec S (Unit {0})

pub record GitSource (S : Type 0) : Type 0 where
  pub url : Text
  pub ref : Text
  pub path : Text
  pub auth : Option GitAuth
  pub clone : Option (CloneFunc S)

pub record KustomizeSource (S : Type 0) : Type 0 where
  pub url : Text
  pub ref : Text
  pub path : Text
  pub auth : Option GitAuth
  pub clone : Option (CloneFunc S)

-- How the goroutine of a dependency build ends: it returns an error or nil, or it panics.
pub data Outcome : Type 0 where
  returned : Result (Unit {0}) → Outcome
  panicked : Text → Outcome

pub record HelmSource (S : Type 0) : Type 0 where
  pub url : Text
  pub ref : Text
  pub path : Text
  pub release_name : Text
  pub namespace : Text
  pub values : Text
  pub values_files : List Text
  pub dependency_build : Bool
  pub auth : Option GitAuth
  pub build_deps : Option (Text → Exec S Outcome)
  pub clone : Option (CloneFunc S)

-- kube-diff's interface `Source`, by the implementations that the program makes. A target filter
-- has its source, the listed namespaces and the selector.
pub data Source (S : Type 0) : Type 0 where
  bytes : Text → Source S
  git : GitSource S → Source S
  helm : HelmSource S → Source S
  kustomize : KustomizeSource S → Source S
  target_filter : Source S → List Text → Option Selector → Source S
