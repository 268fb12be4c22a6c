-- ===== src/Notify.antt =====
-- internal/notify/notify.go: the data that a notification is made of. `notify.Type` has the strings
-- of the API's `WebhookType`, and the conversion between the two changes nothing.
pub mod Json
pub mod Payload
pub mod Sender
use kube_drift.Common.{ℕ, Bool, List, Text}
use kube_drift.Api.{WebhookType}

-- A resolved endpoint.
pub record Webhook : Type 0 where
  pub type : WebhookType
  pub url : Text

pub record Resource : Type 0 where
  pub api_version : Text
  pub kind : Text
  pub name : Text
  pub namespace : Text
  pub status : Text

pub record Summary : Type 0 where
  pub changed : ℕ
  pub new : ℕ
  pub deleted : ℕ
  pub unchanged : ℕ

pub record Event : Type 0 where
  pub name : Text
  pub namespace : Text
  pub summary : Summary
  pub drifted : List Resource
  pub resolved : Bool
