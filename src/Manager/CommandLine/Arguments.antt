-- ===== src/Manager/CommandLine/Arguments.antt =====
-- The arguments of a process and the flags that they leave.
use kube_drift.Common.{◌≡◌, Bool, true, false, List, [], ◌∷◌, ◌++◌, Text, text}
use kube_drift.Manager.CommandLine.{Flags, Foreign, goes_on, parse_from}

-- One dash or two.
pub data Dashes : Type 0 where
  one two : Dashes

-- The value of a flag: behind a `=`, or as the next argument.
pub data Place : Type 0 where
  inline next : Place

pub data Address : Type 0 where
  metrics probe : Address

pub data Switch : Type 0 where
  leader secure http2 : Switch

-- What the words of a command line set. A switch may stand without a value, and is then on.
pub data Setting : Type 0 where
  address : Dashes → Address → Place → Text → Setting
  bare : Dashes → Switch → Setting
  valued : Dashes → Switch → Bool → Setting

abbrev pub dashes : Dashes → Text
dashes one = text "-"
dashes two = text "--"

abbrev pub address_name : Address → Text
address_name metrics = text "metrics-bind-address"
address_name probe = text "health-probe-bind-address"

abbrev pub switch_name : Switch → Text
switch_name leader = text "leader-elect"
switch_name secure = text "metrics-secure"
switch_name http2 = text "enable-http2"

abbrev pub bool_text : Bool → Text
bool_text true = text "true"
bool_text false = text "false"

-- The words of a setting, in front of others.
abbrev pub words : Setting → List Text → List Text
words (address d a inline v) args = (dashes d ++ (address_name a ++ (text "=" ++ v))) ∷ args
words (address d a next v) args = (dashes d ++ address_name a) ∷ v ∷ args
words (bare d s) args = (dashes d ++ switch_name s) ∷ args
words (valued d s b) args = (dashes d ++ (switch_name s ++ (text "=" ++ bool_text b))) ∷ args

abbrev pub arguments : List Setting → List Text
arguments [] = []
arguments (s ∷ settings) = words s (arguments settings)

abbrev pub with_address : Address → Text → Flags → Flags
with_address metrics v f = record f { metrics_addr = v }
with_address probe v f = record f { probe_addr = v }

abbrev pub with_switch : Switch → Bool → Flags → Flags
with_switch leader b f = record f { enable_leader_election = b }
with_switch secure b f = record f { secure_metrics = b }
with_switch http2 b f = record f { enable_http2 = b }

abbrev pub with_setting : Setting → Flags → Flags
with_setting (address d a p v) f = with_address a v f
with_setting (bare d s) f = with_switch s true f
with_setting (valued d s b) f = with_switch s b f

-- The later settings win.
abbrev pub with_settings : List Setting → Flags → Flags
with_settings [] f = f
with_settings (s ∷ settings) f = with_settings settings (with_setting s f)

module _ (fs : Foreign) where
  abbrev Reads : Setting → Type 0
  Reads s =
      (f : Flags) (args : List Text)
      → parse_from fs (goes_on f) (words s args) ≡ parse_from fs (goes_on (with_setting s f)) args
