-- ===== src/Manager/Protection.antt =====
-- The metrics endpoint of a process whose arguments leave it alone.
use kube_drift.Common.{◌≡◌, refl, true, false, some, List, [], ◌∷◌, Text, text, All}
use kube_drift.Libraries.{Http}
use kube_drift.Controller.{Reconciler}
use kube_drift.Manager.{
  TlsConfig, with_authentication_and_authorization, MetricsOptions, ManagerOptions, Runtime, Step,
  managed, manager_options, wired, main,
}
use kube_drift.Manager.CommandLine.{Flags, default_flags, Foreign, metrics_secure, http2}
use kube_drift.Manager.CommandLine.Defaults.{Spells, parse_flags-Agree}
use kube_drift.Manager.Invariants.{KeptByEnds, KeptByStages, main-Invariant}
use kube_drift.Manager.Startup.{manages, fetches, completes, adds_healthz, adds_readyz, runs}

-- The options with which a manager was asked for.
abbrev pub requested : {S : Type 0} → List (Step S) → List ManagerOptions
requested [] = []
requested (managed options answer ∷ steps) = options ∷ requested steps
requested (_ ∷ steps) = requested steps

-- The configuration that some options leave, applied in order.
abbrev pub tls_config : List (TlsConfig → TlsConfig) → TlsConfig → TlsConfig
tls_config [] c = c
tls_config (o ∷ os) c = tls_config os (o c)

-- An endpoint that is served over HTTPS to authorized clients, without HTTP/2.
pub record IsProtected (m : MetricsOptions) : Type 0 where
  pub secure : m.secure_serving ≡ true
  pub filtered : m.filter_provider ≡ some with_authentication_and_authorization
  pub http1 : (c : TlsConfig) → (tls_config m.tls_opts c).next_protos ≡ text "http/1.1" ∷ []

manager_options-IsProtected :
    (f : Flags)
    → f.secure_metrics ≡ true
    → f.enable_http2 ≡ false
    → IsProtected (manager_options f).metrics
unfolding manager_options
manager_options-IsProtected f secure plain = record {
  secure = secure;
  filtered = rw secure refl;
  http1 = λ c. rw plain refl;
}

abbrev AllProtected : {S : Type 0} → List (Step S) → Type 0
AllProtected steps = All (λ options. IsProtected options.metrics) (requested steps)

AllProtected-KeptByEnds : {S : Type 0} → KeptByEnds {S = S} AllProtected
AllProtected-KeptByEnds = record {
  of_logged = λ message e steps h. h;
  of_exited = λ code steps h. h;
  of_died = λ steps h. h;
}

AllProtected-KeptByStages :
    {S : Type 0} (options : ManagerOptions) (r : Reconciler S)
    → IsProtected options.metrics
    → KeptByStages AllProtected options r
AllProtected-KeptByStages options r holds _ _ _ steps (manages answer) h = (holds, h)
AllProtected-KeptByStages options r holds _ _ _ steps (fetches answer) h = h
AllProtected-KeptByStages options r holds _ _ _ steps (completes answer) h = h
AllProtected-KeptByStages options r holds _ _ _ steps (adds_healthz answer) h = h
AllProtected-KeptByStages options r holds _ _ _ steps (adds_readyz answer) h = h
AllProtected-KeptByStages options r holds _ _ _ steps (runs answer) h = h

-- Unless an argument spells `metrics-secure` or `enable-http2`, every manager that a run of the
-- program asks for serves its metrics over HTTPS to authorized clients, without HTTP/2.
pub main-AllProtected :
    {S : Type 0} (rt : Runtime S) (http : Http S) (fs : Foreign) (args : List Text) (s : S)
    → All (λ arg. ¬ Spells metrics_secure arg) args
    → All (λ arg. ¬ Spells http2 arg) args
    → All
        (λ options. IsProtected options.metrics)
        (requested (main rt http fs args (record { world = s; steps = [] })).1.steps)
unfolding default_flags
main-AllProtected rt http fs args s secure plain =
    main-Invariant AllProtected AllProtected-KeptByEnds rt http fs args s
      (λ f read. AllProtected-KeptByStages (manager_options f) (wired http) (
        manager_options-IsProtected f (parse_flags-Agree metrics_secure fs args f secure read)
          (parse_flags-Agree http2 fs args f plain read)))
      tt
