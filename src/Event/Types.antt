-- ===== src/Event/Types.antt =====
-- The types of pkg/event/event.go: states, sources, clock types, measured values and events.
use np_linuxptp_daemon.Base.{ℕ, ◌≡◌, refl, ◌↔◌, Bool, true, List, String, arith, ◌==◌}
use np_linuxptp_daemon.Base.Int.{ℤ}

-- `PTPState` is a string; `no_state` is its zero value "".
pub data PtpState : Type 0 where
  no_state freerun holdover locked unknown not_set : PtpState

-- The text of a state, which the code compares with `<`.
abbrev pub state_text : PtpState → String
state_text no_state = ""
state_text freerun = "s0"
state_text holdover = "s1"
state_text locked = "s2"
state_text unknown = "-1"
state_text not_set = "-2"

abbrev pub state_code : PtpState → ℕ
state_code no_state = 0
state_code freerun = 1
state_code holdover = 2
state_code locked = 3
state_code unknown = 4
state_code not_set = 5

-- `==` on states.
abbrev pub state_eq : PtpState → PtpState → Bool
state_eq s t = state_code s == state_code t

pub state_eq_iff : (s t : PtpState) → (state_eq s t ≡ true) ↔ (s ≡ t)
state_eq_iff s t = ground arith

-- `EventSource` is a string; `no_source` is its zero value "".
pub data EventSource : Type 0 where
  no_source gnss dpll ts2phc ptp4l phc2sys pps synce monitoring : EventSource

abbrev pub source_text : EventSource → String
source_text no_source = ""
source_text gnss = "gnss"
source_text dpll = "dpll"
source_text ts2phc = "ts2phc"
source_text ptp4l = "ptp4l"
source_text phc2sys = "phc2sys"
source_text pps = "1pps"
source_text synce = "synce4l"
source_text monitoring = "monitoring"

abbrev pub source_code : EventSource → ℕ
source_code no_source = 0
source_code gnss = 1
source_code dpll = 2
source_code ts2phc = 3
source_code ptp4l = 4
source_code phc2sys = 5
source_code pps = 6
source_code synce = 7
source_code monitoring = 8

-- `==` on sources.
unfoldable pub source_eq : EventSource → EventSource → Bool
source_eq a b = source_code a == source_code b

pub source_eq_iff : (a b : EventSource) → (source_eq a b ≡ true) ↔ (a ≡ b)
unfolding source_eq
source_eq_iff a b = ground arith

pub source_eq_comm : (a b : EventSource) → source_eq a b ≡ source_eq b a
unfolding source_eq
source_eq_comm a b = ground arith

pub source_eq_refl : (a : EventSource) → source_eq a a ≡ true
source_eq_refl a = (source_eq_iff a a).1 refl

-- `ClockType` is a string; `no_type` is its zero value "".
pub data ClockType : Type 0 where
  no_type gm bc oc : ClockType

-- The keys of the values of an event.
pub data ValueType : Type 0 where
  offset state gps_status phase_status frequency_status nmea_status process_status : ValueType
  pps_status device ql ext_ql clock_quality network_option eec_state : ValueType

-- A value of an event is an `interface{}`: what the code stores in it. A float64 is its bit
-- pattern, since this code only passes it on.
pub data Value : Type 0 where
  int64 : ℤ → Value
  int : ℤ → Value
  float64 : ℕ → Value
  text : String → Value
  byte : ℕ → Value

abbrev pub Values : Type 0
Values = List (ValueType × Value)

-- The struct `EventChannel`.
pub record Event : Type 0 where
  pub process_name : EventSource
  pub state : PtpState
  pub iface : String
  pub cfg_name : String
  pub values : Values
  pub clock_type : ClockType
  pub time : ℤ
  pub out_of_spec : Bool
  pub write_to_log : Bool
  pub reset : Bool
  pub source_lost : Bool
  pub frequency_traceable : Bool

-- A line that the code formats, kept as what is formatted. `no_line` is the empty text.
pub data LogLine : Type 0 where
  no_line : LogLine
  -- process, time, profile, interface, values, state
  event_line : EventSource → ℕ → String → String → Values → PtpState → LogLine
  -- time, profile, interface, grandmaster state
  gm_line : ℕ → String → String → PtpState → LogLine
  -- time, profile, clock class
  class_line : ℕ → String → ℕ → LogLine

-- `EventChannel.GetLogData`, at the time `now`; the formatting itself is left out.
unfoldable pub get_log_data : ℕ → Event → LogLine
get_log_data now e = event_line e.process_name now e.cfg_name e.iface e.values e.state
