-- ===== src/Tests/Telling.antt =====
-- Examples of the theorems on notifications, credentials and clones.
use mathlib.Core.List.{Memᴰ}
use kube_drift.Common.{
  ℕ, ◌≡◌, refl, ◌≢◌, ◌⊎◌, ◌↔◌, false, Option, none, [], ◌∷◌, Text, text, All, length, ◌==◌, arith,
}
use kube_drift.Errors.{Error, message, errorf, ok, err}
use kube_drift.Errors.Format.{str, sprintf}
use kube_drift.Machine.{effect, ◌>>=◌, cloned, checked_out}
use kube_drift.Libraries.{Http, Crypto, Secret, AuthMethod}
use kube_drift.Api.{DriftCheck, basic, generic}
use kube_drift.Notify
use kube_drift.Notify.{Event}
use kube_drift.Notify.Json.{marshal}
use kube_drift.Notify.Payload.{payload, generic_payload}
use kube_drift.Notify.Payload.Unicode.{IsUnicodeEvent}
use kube_drift.Notify.Payload.Message.{Tells, payload-Tells}
use kube_drift.Notify.Sender.{new_sender, send}
use kube_drift.Notify.Sender.Outcome.{Outcome, send-Outcome}
use kube_drift.Source.Auth.{auth_method}
use kube_drift.Source.Clone.{is_anonymous, git_clone}
use kube_drift.Source.Clone.Revisions.{Resolves, git_clone-ok}
use kube_drift.Controller.{Reconciler}
use kube_drift.Controller.Summary.Listed.{Describes}
use kube_drift.Controller.Fingerprint.{drift_hash}
use kube_drift.Controller.Fingerprint.Digits.{IsHexDigit, length-drift_hash}
use kube_drift.Controller.Fingerprint.Dedup.{IsDigest, Collision}
use kube_drift.Controller.Secrets.{credentials, missing_key}
use kube_drift.Controller.Secrets.Complaints.{Lacks, credentials-err}
use kube_drift.Controller.Notifying.{update_status, notify}
use kube_drift.Controller.Notifying.Contract.{never, none_heard}
use kube_drift.Controller.Notifying.Refinement.{Implements, notify-Implements}
use kube_drift.Controller.Reconcile.{reconcile_found}
use kube_drift.Controller.Reconcile.Lifecycle.{
  IsConsistent, no_status, Reachable, created, written, Reachable-IsConsistent,
}
use kube_drift.Metrics.{delete}
use kube_drift.Tests.Fixtures.{S, drifted, check, crypto, os, http, world, reconciler, start}
use kube_drift.Tests.Fixtures
use kube_drift.Tests.Controlling.{crypto-IsDigest, drifted-IsClean, engine-EngineKeeps}
use kube_drift.Tests.Repeating.{world-Stores}

check-Describes : Describes check.status.summary check.status.drifted_resources
unfolding ◌==◌
check-Describes = record { changed = refl; new = refl; deleted = refl; drift = (refl, tt) }

notify-Implements_example :
    Implements reconciler world check crypto-IsDigest check-Describes
      (drifted-IsClean, tt)
      never
      start
      (notify reconciler world check start).1
    ⊎ Collision crypto
notify-Implements_example =
    notify-Implements reconciler world check crypto-IsDigest check-Describes (drifted-IsClean, tt)
      never start (none_heard refl) tt tt

abbrev unconfigured : Reconciler S
unconfigured = record reconciler { has_fetcher = false }

abbrev fresh : DriftCheck
fresh = record check { status = no_status }

-- The status of a reconcile without a fetcher.
abbrev refused_check : DriftCheck
refused_check = record fresh {
  status = record no_status {
    conditions =
        record {
          type = text "Ready";
          status = text "False";
          reason = text "NoFetcher";
          message = text "cluster fetcher is not configured";
          observed_generation = 2;
        }
        ∷ [];
  };
}

refused_check-Reachable : Reachable unconfigured world refused_check
unfolding reconcile_found ◌>>=◌ effect delete update_status message sprintf
refused_check-Reachable = written tt (created {dc = fresh} refl) (Memᴰ.head refl)

Reachable-IsConsistent_example : IsConsistent world refused_check.status
Reachable-IsConsistent_example =
    Reachable-IsConsistent unconfigured world refused_check tt engine-EngineKeeps tt world-Stores
      refused_check-Reachable

abbrev event : Event
event = record {
  name = text "check";
  namespace = text "a";
  summary = record { changed = 1; new = 0; deleted = 12; unchanged = 0 };
  drifted =
      record {
        api_version = text "v1";
        kind = text "Pod";
        name = text "<web>";
        namespace = [];
        status = text "changed";
      }
      ∷ [];
  resolved = false;
}

event-IsUnicode : IsUnicodeEvent event
event-IsUnicode = ground arith

payload-Tells_example : Tells generic event (marshal (generic_payload event))
unfolding payload
payload-Tells_example =
    payload-Tells generic event (marshal (generic_payload event)) event-IsUnicode refl

abbrev failing : Http S
failing = record http { do_request = λ client req s. (ok 503, s) }

abbrev hook : Notify.Webhook
hook = record { type = generic; url = text "http://hook" }

send-Outcome_example :
    Outcome failing new_sender hook event start
      (send failing new_sender hook event start).0
      (send failing new_sender hook event start).1.calls
send-Outcome_example = send-Outcome failing new_sender hook event start

-- A digest of 32 bytes.
abbrev constant : Crypto
constant = record {
  sha256 = λ t.
      0 ∷ 1 ∷ 2 ∷ 3 ∷ 4 ∷ 5 ∷ 6 ∷ 7 ∷ 8 ∷ 9 ∷ 10 ∷ 11 ∷ 12 ∷ 13 ∷ 14 ∷ 15 ∷ 16 ∷ 17 ∷ 18 ∷ 19 ∷ 20
      ∷ 21 ∷ 22 ∷ 23 ∷ 24 ∷ 25 ∷ 26 ∷ 27 ∷ 28 ∷ 29 ∷ 30 ∷ 255 ∷ [];
}

constant-IsDigest : IsDigest constant
constant-IsDigest = record { bytes = λ t. omega arith; nonempty = λ t e. cc }

length-drift_hash_example :
    (length (drift_hash constant (drifted ∷ [])) ≡ 64)
    × All IsHexDigit (drift_hash constant (drifted ∷ []))
length-drift_hash_example = length-drift_hash constant (drifted ∷ []) constant-IsDigest (λ t. refl)

git_clone-done :
    (git_clone os Fixtures.git (text "/tmp/1") (text "https://git") (text "main") none start).0
    ≡ ok tt
unfolding git_clone ◌>>=◌
git_clone-done = refl

git_clone-ok_example :
    let url = text "https://git" in
    let (found, m1) = auth_method os Fixtures.git none start in
    (am : Option AuthMethod) × (repo : ℕ) × (found ≡ ok am)
    × ((Fixtures.git.plain_clone (text "/tmp/1") url am m1.world).0 ≡ ok repo)
    × let s = (Fixtures.git.plain_clone (text "/tmp/1") url am m1.world).1 in
      let before = cloned (text "/tmp/1") url (is_anonymous am) ∷ m1.calls in
      let after =
        (git_clone os Fixtures.git (text "/tmp/1") url (text "main") none start).1.calls in
      ((text "main" ≡ []) × (after ≡ before))
      ⊎ (hash : Text) × (text "main" ≢ [])
        × Resolves os Fixtures.git repo (text "main") s hash
        × (after ≡ checked_out hash (ok tt) ∷ before)
git_clone-ok_example =
    git_clone-ok os Fixtures.git (text "/tmp/1") (text "https://git") (text "main") none start
      git_clone-done

abbrev no_password : Secret
no_password = record { entries = (text "username", text "me") ∷ [] }

abbrev complaint : Error
complaint = errorf missing_key (str (text "a/s") ∷ str (text "password") ∷ [])

credentials-err_example :
    (credentials basic (text "a/s") no_password ≡ err complaint)
    ↔ Lacks (text "a/s") no_password basic complaint
credentials-err_example = credentials-err basic (text "a/s") no_password complaint
