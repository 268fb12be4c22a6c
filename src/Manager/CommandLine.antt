-- ===== src/Manager/CommandLine.antt =====
-- The command line of cmd/main.go: its five flags, as Go's package flag reads them.
pub mod Arguments
pub mod Defaults
use kube_drift.Common.{
  ℕ, Bool, true, false, Option, none, some, List, [], ◌∷◌, Text, text, ◌==◌, nat_eq, ◌||◌,
  if◌then◌else◌,
}
use kube_drift.Errors.{Error, Result, ok, err, errorf, message}
use kube_drift.Errors.Format.{str}

pub record Flags : Type 0 where
  pub metrics_addr : Text
  pub probe_addr : Text
  pub enable_leader_election : Bool
  pub secure_metrics : Bool
  pub enable_http2 : Bool

unfoldable pub default_flags : Flags
default_flags = record {
  metrics_addr = text ":8443";
  probe_addr = text ":8081";
  enable_leader_election = false;
  secure_metrics = true;
  enable_http2 = false;
}

-- The flags that zap and controller-runtime add: whether a name is one, and then a Boolean one, and
-- whether it takes a value.
pub record Foreign : Type 0 where
  pub is_boolean : Text → Option Bool
  pub set : Text → Text → Result (Unit {0})

pub data Own : Type 0 where
  metrics_bind_address health_probe_bind_address leader_elect metrics_secure http2 : Own

unfoldable pub flag_name : Own → Text
flag_name metrics_bind_address = text "metrics-bind-address"
flag_name health_probe_bind_address = text "health-probe-bind-address"
flag_name leader_elect = text "leader-elect"
flag_name metrics_secure = text "metrics-secure"
flag_name http2 = text "enable-http2"

pub data Named : Type 0 where
  own : Own → Named
  foreign : Bool → Named
  undefined : Named

unfoldable pub flag_named : Foreign → Text → Named
unfolding flag_name
flag_named f name =
    if name == flag_name metrics_bind_address
    then own metrics_bind_address
    else if name == flag_name health_probe_bind_address
    then own health_probe_bind_address
    else if name == flag_name leader_elect
    then own leader_elect
    else if name == flag_name metrics_secure
    then own metrics_secure
    else if name == flag_name http2
    then own http2
    else elim (f.is_boolean name) [ some b ↦ foreign b | none ↦ undefined ]

-- Whether the flag of a name goes without a value.
unfoldable pub is_boolean : Named → Bool
is_boolean (own metrics_bind_address) = false
is_boolean (own health_probe_bind_address) = false
is_boolean (own _) = true
is_boolean (foreign b) = b
is_boolean undefined = false

-- `strconv.ParseBool`
unfoldable pub parse_bool : Text → Option Bool
parse_bool s =
    if s == text "1"
      || s == text "t"
      || s == text "T"
      || s == text "true"
      || s == text "TRUE"
      || s == text "True"
    then some true
    else if s == text "0"
        || s == text "f"
        || s == text "F"
        || s == text "false"
        || s == text "FALSE"
        || s == text "False"
    then some false
    else none

unfoldable pub parsed_bool : Text → Text → Result Bool
unfolding parse_bool
parsed_bool name value = elim (parse_bool value) [
  | some b ↦ ok b
  | none ↦ err (errorf "invalid boolean value %q for -%s: parse error" (str value ∷ str name ∷ []))
]

unfoldable pub with_bool : (Flags → Bool → Flags) → Flags → Text → Text → Result Flags
unfolding parsed_bool
with_bool put f name value = elim (parsed_bool name value) [ ok b ↦ ok (put f b) | err e ↦ err e ]

-- `Value.Set` of a flag of the program.
unfoldable pub set_own : Own → Flags → Text → Text → Result Flags
unfolding with_bool
set_own metrics_bind_address f name value = ok (record f { metrics_addr = value })
set_own health_probe_bind_address f name value = ok (record f { probe_addr = value })
set_own leader_elect f name value =
    with_bool (λ f b. record f { enable_leader_election = b }) f name value
set_own metrics_secure f name value =
    with_bool (λ f b. record f { secure_metrics = b }) f name value
set_own http2 f name value = with_bool (λ f b. record f { enable_http2 = b }) f name value

-- How the reading of the arguments ends. A rejected one exits with the code 2, and help with 0.
pub data Parsed : Type 0 where
  parsed : Flags → Parsed
  helped : Parsed
  rejected : Error → Parsed

-- An argument: no flag, the `--` that ends them, a flag with the value behind its `=`, or neither.
pub data Token : Type 0 where
  plain terminator malformed : Token
  flag : Text → Option Text → Token

unfoldable pub split_value : Text → Text × Option Text
split_value [] = ([], none)
split_value (c ∷ s) =
    let (name, value) = split_value s in if nat_eq c b'=' then ([], some s) else (c ∷ name, value)

unfoldable pub named_token : Text → Token
unfolding split_value
named_token [] = malformed
named_token (c ∷ s) =
    let (name, value) = split_value s in
    if nat_eq c b'-' || nat_eq c b'=' then malformed else flag (c ∷ name) value

unfoldable pub dashed : Text → Token
unfolding named_token
dashed [] = plain
dashed (c ∷ s) = if nat_eq c b'-' then double s else named_token (c ∷ s)
  where
    double : Text → Token
    double [] = terminator
    double (d ∷ s) = named_token (d ∷ s)

unfoldable pub token : Text → Token
unfolding dashed
token [] = plain
token (c ∷ s) = if nat_eq c b'-' then dashed s else plain

-- What an argument does: the next flags, or a flag that takes the argument behind it.
pub data Effect : Type 0 where
  goes_on : Flags → Effect
  awaits : Flags → Named → Text → Effect
  ends : Parsed → Effect

unfoldable pub assigned : Result Flags → Effect
assigned (ok f) = goes_on f
assigned (err e) = ends (rejected e)

-- `Set` of any flag that is defined.
unfoldable pub assign : Foreign → Flags → Named → Text → Text → Effect
unfolding assigned set_own
assign fs f (own o) name value = assigned (set_own o f name value)
assign fs f (foreign b) name value = elim (fs.set name value) [
  | ok _ ↦ goes_on f
  | err e ↦ ends (
      rejected
        (errorf "invalid value %q for flag -%s: %v" (str value ∷ str name ∷ str (message e) ∷ [])))
]
assign fs f undefined name value =
    if name == text "help" || name == text "h"
    then ends helped
    else ends (rejected (errorf "flag provided but not defined: -%s" (str name ∷ [])))

-- A flag without `=`: a Boolean one is set, and another one takes the next argument.
unfoldable pub bare : Foreign → Flags → Named → Text → Effect
unfolding assign is_boolean
bare fs f undefined name = assign fs f undefined name []
bare fs f n name = if is_boolean n then assign fs f n name (text "true") else awaits f n name

-- `FlagSet.parseOne`
unfoldable pub apply_token : Foreign → Flags → Text → Token → Effect
unfolding bare assign flag_named
apply_token fs f arg plain = ends (parsed f)
apply_token fs f arg terminator = ends (parsed f)
apply_token fs f arg malformed = ends (rejected (errorf "bad flag syntax: %s" (str arg ∷ [])))
apply_token fs f arg (flag name none) = bare fs f (flag_named fs name) name
apply_token fs f arg (flag name (some value)) = assign fs f (flag_named fs name) name value

-- `flag.Parse` over the arguments, under the effect of those before.
unfoldable pub parse_from : Foreign → Effect → List Text → Parsed
unfolding apply_token token
parse_from fs (ends p) args = p
parse_from fs (goes_on f) [] = parsed f
parse_from fs (awaits f n name) [] = rejected (errorf "flag needs an argument: -%s" (str name ∷ []))
parse_from fs (goes_on f) (arg ∷ args) = parse_from fs (apply_token fs f arg (token arg)) args
parse_from fs (awaits f n name) (value ∷ args) = parse_from fs (assign fs f n name value) args

unfoldable pub parse_flags : Foreign → List Text → Parsed
unfolding parse_from default_flags
parse_flags fs args = parse_from fs (goes_on default_flags) args
