-- ===== src/Daemon/Ts2phc.antt =====
-- What a process reports of its clock (pkg/daemon/daemon.go): getPTPThreshold, ProcessTs2PhcEvents,
-- the part of processPTPMetrics behind extractMetrics, updateGMStatusOnProcessDown,
-- updateClockClass and HandlePmcTicker; and the searches in the interfaces of a process
-- (pkg/config/config.go). An offset is what its conversion to an int64 gives.
pub mod Laws
use np_linuxptp_daemon.Base.{
  ℕ, ◌≡◌, Bool, true, false, not, ◌&&◌, ◌||◌, List, [], ◌∷◌, ◌++◌, Option, none, some, String,
  str_eq, if◌then◌else◌,
}
use np_linuxptp_daemon.Base.Int.{ℤ, pos, negsuc, leb_ℤ}
use np_linuxptp_daemon.Event.Types.{
  PtpState, no_state, freerun, holdover, locked, state_eq, EventSource, gnss, ptp4l, ts2phc,
  source_eq, ClockType, Values, offset, nmea_status, process_status, int64, Event,
}
use np_linuxptp_daemon.Event.Process.{mask_iface}

-- `config.Iface`, less the flag for a master and the clock's number.
pub record ClockIface : Type 0 where
  pub name : String
  pub source : EventSource

-- `GetGMInterface`, by its name; the zero value has the empty name.
unfoldable pub gm_interface : List ClockIface → String
gm_interface [] = ""
gm_interface (i ∷ is) =
    let rest = gm_interface is in if source_eq i.source gnss then i.name else rest

-- `GetEventSource`
unfoldable pub event_source : String → List ClockIface → EventSource
event_source iface [] = ptp4l
event_source iface (i ∷ is) =
    let rest = event_source iface is in if str_eq i.name iface then i.source else rest

-- `PtpClockThreshold`
pub record Threshold : Type 0 where
  pub holdover_timeout : ℤ
  pub max_offset : ℤ
  pub min_offset : ℤ

-- `getPTPThreshold`, on the thresholds of the profile, if it has any.
unfoldable pub get_ptp_threshold : Option Threshold → Threshold
get_ptp_threshold (some t) = record {
  holdover_timeout = t.holdover_timeout;
  max_offset = t.max_offset;
  min_offset = t.min_offset;
}
get_ptp_threshold none = record {
  holdover_timeout = pos 5;
  max_offset = pos 100;
  min_offset = negsuc 99;
}

-- The fields of `ptpProcess` that the reports use. `parent_clock_class` is the bit pattern of a
-- float64.
pub record ClockProcess : Type 0 where
  pub name : String
  pub config_name : String
  pub ifaces : List ClockIface
  pub clock_type : ClockType
  pub threshold : Threshold
  pub parent_clock_class : ℕ
  pub pmc_check : Bool

-- The state after the comparison with the thresholds.
unfoldable pub ptp_state : Threshold → PtpState → ℤ → PtpState
ptp_state t state z =
    if not (state_eq state holdover)
      && (not (state_eq state freerun) && (leb_ℤ z t.max_offset && leb_ℤ t.min_offset z))
    then locked
    else state

-- What a report does: an event for the channel (lost if it is full), the gauge of the clock state by
-- process and interface, or nothing.
pub data Report : Type 0 where
  sends : Event → Report
  sets_gauge : String → String → ℕ → Report
  nothing : Report

abbrev is_extra : Values → Bool
is_extra [] = false
is_extra (v ∷ vs) = true

-- The event for ts2phc.
unfoldable pub ts2phc_event : ℤ → ClockProcess → ℤ → String → PtpState → Values → Event
ts2phc_event now p z iface state extra = record {
  process_name = ts2phc;
  state = state;
  iface = iface;
  cfg_name = p.config_name;
  values = (offset, int64 z) ∷ extra;
  clock_type = p.clock_type;
  time = now;
  out_of_spec = false;
  write_to_log = is_extra extra;
  reset = false;
  source_lost = false;
  frequency_traceable = false;
}

-- `updateClockStateMetrics`, where the state is one of the three that the switch knows.
unfoldable pub state_gauge : String → String → PtpState → Report
state_gauge process iface locked = sets_gauge process iface 1
state_gauge process iface freerun = sets_gauge process iface 0
state_gauge process iface holdover = sets_gauge process iface 0
state_gauge process iface _ = nothing

-- `ProcessTs2PhcEvents`. The keys of the extra values are others than the offset.
unfoldable pub process_ts2phc_events :
    ℤ → ClockProcess → ℤ → String → String → PtpState → Values → Report
unfolding ptp_state ts2phc_event state_gauge mask_iface
process_ts2phc_events now p z source iface state extra =
    let s = ptp_state p.threshold state z in
    if str_eq source "ts2phc"
    then sends (ts2phc_event now p z iface s extra)
    else state_gauge p.name (if str_eq iface "CLOCK_REALTIME" then iface else mask_iface iface) s

-- `switch clockState`; the state starts as freerun.
unfoldable pub clock_state_of : String → PtpState
clock_state_of text =
    if str_eq text "FREERUN"
    then freerun
    else if str_eq text "LOCKED"
    then locked
    else if str_eq text "HOLDOVER"
    then holdover
    else freerun

-- What `extractMetrics` returns, with the interface's name by its alias.
pub record Extracted : Type 0 where
  pub source : String
  pub ptp_offset : ℤ
  pub clock_state : String
  pub iface : String
  pub iface_name : String

abbrev nmea_values : Bool → Values
nmea_values true = (nmea_status, int64 (pos 1)) ∷ []
nmea_values false = []

-- The branch of `processPTPMetrics` for a process other than synce4l.
unfoldable pub process_ptp_metrics : ℤ → ClockProcess → Extracted → Report
unfolding process_ts2phc_events clock_state_of event_source
process_ptp_metrics now p x =
    if not (str_eq x.iface "")
    then process_ts2phc_events now p x.ptp_offset x.source x.iface_name
        (clock_state_of x.clock_state)
        (nmea_values (
          not (str_eq x.iface "CLOCK_REALTIME")
          && (str_eq p.name "ts2phc" && source_eq (event_source x.iface_name p.ifaces) gnss)))
    else nothing

-- `updateGMStatusOnProcessDown`
unfoldable pub update_gm_status_on_process_down : ℤ → String → ClockProcess → Report
unfolding process_ts2phc_events gm_interface
update_gm_status_on_process_down now process p =
    if str_eq process "ts2phc"
    then process_ts2phc_events now p (pos 999999) "ts2phc" (gm_interface p.ifaces) freerun
        ((process_status, int64 (pos 0)) ∷ [])
    else nothing

-- `HandlePmcTicker`
unfoldable pub handle_pmc_ticker : List ClockProcess → List ClockProcess
handle_pmc_ticker [] = []
handle_pmc_ticker (p ∷ ps) =
    (if str_eq p.name "ptp4l" then record p { pmc_check = true } else p) ∷ handle_pmc_ticker ps

-- What pmc answers to updateClockClass: an error, no match, a match that is no number, or the
-- clock class.
pub data ClassAnswer : Type 0 where
  fails unmatched unparsed : ClassAnswer
  answers : ℕ → ClassAnswer

-- The line CLOCK_CLASS_CHANGE with its name, configuration and class; it goes to the socket or, if
-- there is none, sets the gauge.
pub data ClassChange : Type 0 where
  class_change : String → String → ℕ → ClassChange

module _ (float_eq : ℕ → ℕ → Bool) where
  -- `updateClockClass`
  unfoldable pub update_clock_class : ClassAnswer → ClockProcess → ClockProcess × Option ClassChange
  update_clock_class fails p = (p, none)
  update_clock_class unmatched p = (p, none)
  update_clock_class unparsed p = (p, none)
  update_clock_class (answers c) p =
      if not (float_eq c p.parent_clock_class)
      then (record p { parent_clock_class = c }, some (class_change p.name p.config_name c))
      else (p, none)

  abbrev announced : Option ClassChange → List ClassChange
  announced none = []
  announced (some c) = c ∷ []

  -- A process whose clock class is asked for several times: what is announced.
  unfoldable pub class_changes : List ClassAnswer → ClockProcess → List ClassChange
  unfolding update_clock_class
  class_changes [] p = []
  class_changes (a ∷ more) p =
      let r = update_clock_class a p in announced r.1 ++ class_changes more r.0
