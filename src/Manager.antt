-- ===== src/Manager.antt =====
-- `main` of cmd/main.go: how the process sets the manager up. What it acts on is the world and the
-- steps that it has taken, the latest first; a program without a value has ended the process.
pub mod CommandLine
pub mod Startup
pub mod Invariants
pub mod Wiring
pub mod Protection
pub mod Initialization
use kube_drift.Common.{
  ℕ, Bool, true, false, Option, none, some, List, [], ◌∷◌, Text, text, if◌then◌else◌,
}
use kube_drift.Errors.{Error, Result, ok, err}
use kube_drift.Libraries.{Http}
use kube_drift.Notify.Sender.{send, new_sender}
use kube_drift.Controller.{Reconciler}
use CommandLine.{Flags, Foreign, Parsed, parsed, helped, rejected, parse_flags}

-- tls.Config, by the field that the program sets.
pub record TlsConfig : Type 0 where
  pub next_protos : List Text

pub data FilterProvider : Type 0 where
  with_authentication_and_authorization : FilterProvider

-- metricsserver.Options
pub record MetricsOptions : Type 0 where
  pub bind_address : Text
  pub secure_serving : Bool
  pub tls_opts : List (TlsConfig → TlsConfig)
  pub filter_provider : Option FilterProvider

-- ctrl.Options, but for the scheme, which is the one of the process.
pub record ManagerOptions : Type 0 where
  pub metrics : MetricsOptions
  pub health_probe_bind_address : Text
  pub leader_election : Bool
  pub leader_election_id : Text

-- The parts of controller-runtime and kube-diff that `main` calls. A configuration, a manager and a
-- fetcher are handles. Without a configuration `GetConfigOrDie` ends the process.
pub record Runtime (S : Type 0) : Type 0 where
  pub get_config_or_die : S → Option ℕ × S
  pub new_manager : ℕ → ManagerOptions → S → Result ℕ × S
  pub get_config : ℕ → ℕ
  pub new_fetcher_from_config : ℕ → S → Result ℕ × S
  -- `NewControllerManagedBy(mgr).For(&DriftCheck{}).Complete(r)`
  pub complete : ℕ → Reconciler S → S → Result (Unit {0}) × S
  pub add_healthz_check : ℕ → Text → S → Result (Unit {0}) × S
  pub add_readyz_check : ℕ → Text → S → Result (Unit {0}) × S
  pub start : ℕ → S → Result (Unit {0}) × S

-- scheme.Builder, with the types that were registered at it.
pub record SchemeBuilder : Type 0 where
  pub group : Text
  pub version : Text
  pub types : List Text

pub data Step (S : Type 0) : Type 0 where
  -- The registration of a collector of metrics, by the name and the labels of its gauges.
  registered : Text → List Text → Result (Unit {0}) → Step S
  added_client_go : Result (Unit {0}) → Step S
  added_types : SchemeBuilder → Result (Unit {0}) → Step S
  panicked : Error → Step S
  managed : ManagerOptions → Result ℕ → Step S
  fetched : Result ℕ → Step S
  completed : Reconciler S → Result (Unit {0}) → Step S
  added_healthz : Text → Result (Unit {0}) → Step S
  added_readyz : Text → Result (Unit {0}) → Step S
  started : Result (Unit {0}) → Step S
  -- `setupLog.Error(err, message)`
  logged : Text → Error → Step S
  -- `os.Exit(code)`
  exited : ℕ → Step S
  -- The end within `GetConfigOrDie`.
  died : Step S

pub record Process (S : Type 0) : Type 0 where
  pub world : S
  pub steps : List (Step S)

abbrev pub Program : Type 0 → Type 0 → Type 0
Program S A = Process S → Option A × Process S

-- HTTP/1.1 only, unless HTTP/2 is enabled.
unfoldable pub tls_opts : Flags → List (TlsConfig → TlsConfig)
tls_opts f =
    if f.enable_http2 then [] else (λ c. record c { next_protos = text "http/1.1" ∷ [] }) ∷ []

unfoldable pub metrics_server_options : Flags → MetricsOptions
unfolding tls_opts
metrics_server_options f = record {
  bind_address = f.metrics_addr;
  secure_serving = f.secure_metrics;
  tls_opts = tls_opts f;
  filter_provider = if f.secure_metrics then some with_authentication_and_authorization else none;
}

unfoldable pub manager_options : Flags → ManagerOptions
unfolding metrics_server_options
manager_options f = record {
  metrics = metrics_server_options f;
  health_probe_bind_address = f.probe_addr;
  leader_election = f.enable_leader_election;
  leader_election_id = text "kube-drift.somaz.io";
}

-- The reconciler that is set up.
unfoldable pub wired : {S : Type 0} → Http S → Reconciler S
wired http = record {
  has_fetcher = true;
  has_metrics = true;
  git_cloner = none;
  notifier = some (send http new_sender);
  has_recorder = true;
}

module _ {S : Type 0} where
  unfoldable pub exit : {A : Type 0} → ℕ → Program S A
  exit code p = (none, record p { steps = exited code ∷ p.steps })

  -- `if err != nil { setupLog.Error(err, message); os.Exit(1) }`
  unfoldable pub or_exit : {A : Type 0} → Text → Result A → Program S A
  unfolding exit
  or_exit message (ok a) p = (some a, p)
  or_exit message (err e) p = exit 1 (record p { steps = logged message e ∷ p.steps })

  abbrev pub continue : {A B : Type 0} → Option A → (A → Program S B) → Program S B
  continue none k p = (none, p)
  continue (some a) k p = k a p

  infixl 10 ◌>>=◌ ◌>>◌
  unfoldable pub ◌>>=◌ : {A B : Type 0} → Program S A → (A → Program S B) → Program S B
  ◌>>=◌ f k p = let (a, p') = f p in continue a k p'

  abbrev pub ◌>>◌ : {A B : Type 0} → Program S A → Program S B → Program S B
  f >> g = f >>= λ _. g

  -- A fallible call, and the branch of its error.
  unfoldable pub checked :
      {A : Type 0} → Text → (Result A → Step S) → (S → Result A × S) → Program S A
  unfolding or_exit
  checked message note f p =
      let (r, s) = f p.world in or_exit message r (record { world = s; steps = note r ∷ p.steps })

  -- What follows `GetConfigOrDie`.
  unfoldable pub or_died : Option ℕ → Program S ℕ
  or_died (some config) p = (some config, p)
  or_died none p = (none, record p { steps = died ∷ p.steps })

  unfoldable pub configured : Runtime S → Program S ℕ
  unfolding or_died
  configured rt p =
      let (config, s) = rt.get_config_or_die p.world in or_died config (record p { world = s })

  -- `SetupWithManager`: the reconciler gets the requests of DriftCheck objects.
  unfoldable pub setup_with_manager : Runtime S → ℕ → Reconciler S → S → Result (Unit {0}) × S
  setup_with_manager rt mgr r = rt.complete mgr r

  -- From the manager on.
  unfoldable pub set_up : Runtime S → Http S → Flags → ℕ → Program S (Unit {0})
  unfolding checked manager_options wired setup_with_manager
  set_up rt http f config = do
    mgr ←
        checked (text "unable to start manager") (managed (manager_options f))
          (rt.new_manager config (manager_options f))
    checked (text "unable to build cluster fetcher") fetched
        (rt.new_fetcher_from_config (rt.get_config mgr))
    checked (text "unable to create controller") (completed (wired http))
        (setup_with_manager rt mgr (wired http))
    checked (text "unable to set up health check") (added_healthz (text "healthz"))
        (rt.add_healthz_check mgr (text "healthz"))
    checked (text "unable to set up ready check") (added_readyz (text "readyz"))
        (rt.add_readyz_check mgr (text "readyz"))
    checked (text "problem running manager") started (rt.start mgr)

  unfoldable pub serve : Runtime S → Http S → Flags → Program S (Unit {0})
  unfolding configured set_up
  serve rt http f = configured rt >>= set_up rt http f

  -- A run of the process with some arguments. Arguments that are not accepted exit with 2.
  unfoldable pub main : Runtime S → Http S → Foreign → List Text → Program S (Unit {0})
  unfolding serve exit parse_flags
  main rt http fs args = elim (parse_flags fs args) [
    | parsed f ↦ serve rt http f
    | helped ↦ exit 0
    | rejected e ↦ exit 2
  ]
