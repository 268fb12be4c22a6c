-- ===== src/Tests/Managing.antt =====
-- Examples of the theorems on the process.
use kube_drift.Common.{
  List, ◌≡◌, refl, ap, eq_refl, false, none, some, [], ◌∷◌, Text, text, All, ◌==◌,
}
use kube_drift.Errors.{ok}
use kube_drift.Manager.{Runtime, Process, main}
use kube_drift.Manager.CommandLine.{
  default_flags, Foreign, Own, Token, flag, metrics_secure, http2, token, flag_name, parse_flags,
  parsed,
}
use kube_drift.Manager.CommandLine.Arguments.{
  Setting, address, bare, valued, one, two, inline, next, metrics, probe, leader,
}
use kube_drift.Manager.CommandLine.Defaults.{Spells}
use kube_drift.Manager.Initialization.{Registries, process}
use kube_drift.Manager.Initialization.Launch.{Launch, process-Launch}
use kube_drift.Manager.Protection.{requested, IsProtected, main-AllProtected}
use kube_drift.Tests.Fixtures.{S, http, refused, world}

-- A cluster in which all is well but the fetcher.
abbrev runtime : Runtime S
runtime = record {
  get_config_or_die = λ s. (some 1, s);
  new_manager = λ config options s. (ok 2, s);
  get_config = λ mgr. 1;
  new_fetcher_from_config = λ config s. (refused, s);
  complete = λ mgr r s. (ok tt, s);
  add_healthz_check = λ mgr name s. (ok tt, s);
  add_readyz_check = λ mgr name s. (ok tt, s);
  start = λ mgr s. (ok tt, s);
}

abbrev foreign : Foreign
foreign = record { is_boolean = λ name. none; set = λ name value. ok tt }

abbrev idle : Process S
idle = record { world = tt; steps = [] }

-- The group of the checks is not known to the scheme.
abbrev registries : Registries S
registries = record {
  register = λ name labels s. (ok tt, s);
  client_go_add_to_scheme = λ s. (ok tt, s);
  add_to_scheme = λ builder s. (refused, s);
}

no_arguments : parse_flags foreign [] ≡ parsed default_flags
unfolding parse_flags
no_arguments = refl

process-Launch_example :
    Launch http default_flags
      (process registries runtime http foreign [] idle).0
      (process registries runtime http foreign [] idle).1.steps
process-Launch_example =
    process-Launch registries runtime http foreign [] default_flags no_arguments tt

abbrev spelled : Token → Text
spelled (flag name value) = name
spelled _ = []

-- An argument does not spell a flag of another name.
unspelled : (o : Own) (arg : Text) → (spelled (token arg) == flag_name o) ≡ false → ¬ Spells o arg
unspelled o arg differs (value, h) =
    cc (ap (λ t. spelled t == flag_name o) h, eq_refl (flag_name o), differs)

leader-secure : ¬ Spells metrics_secure (text "--leader-elect")
unfolding token flag_name ◌==◌
leader-secure = unspelled metrics_secure (text "--leader-elect") refl

leader-http2 : ¬ Spells http2 (text "--leader-elect")
unfolding token flag_name ◌==◌
leader-http2 = unspelled http2 (text "--leader-elect") refl

main-AllProtected_example :
    All
      (λ options. IsProtected options.metrics)
      (requested (main runtime http foreign (text "--leader-elect" ∷ []) idle).1.steps)
main-AllProtected_example =
    main-AllProtected runtime http foreign (text "--leader-elect" ∷ []) tt (leader-secure, tt)
      (leader-http2, tt)

-- As in the repository's manifests, and with a flag that is set twice.
abbrev settings : List Setting
settings =
    address two metrics inline (text ":8443")
    ∷ bare two leader
    ∷ address one probe next (text ":8081")
    ∷ valued two leader false
    ∷ []
