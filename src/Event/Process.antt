-- ===== src/Event/Process.antt =====
-- The body of the loop of ProcessEvents (pkg/event/event.go): what one event changes in the
-- handler, and what it sends out.
pub mod Reset
pub mod Step
pub mod Metrics
use Prim.Native.Char.{Char}
use np_linuxptp_daemon.Base.{
  ℕ, zero, suc, ◌+◌, ◌-◌, ◌*◌, ◌≤◌, ◌<◌, ◌≡◌, refl, sym, ap, ◌∙◌, ◌≢◌, ◌↔◌, ◌⊎◌, inl, inr, Bool,
  true, false, not, ◌&&◌, ◌||◌, List, [], ◌∷◌, ◌++◌, map, Option, none, some, String, arith, str_eq,
  str_eq_iff, if◌then◌else◌, any, All, Bool-cases, Option-cases, ◌==◌, ltb, leb, length, get_elem?,
  take, drop,
}
use np_linuxptp_daemon.Base.Int.{ℤ, pos}
use np_linuxptp_daemon.Base.Map.{Map, lookup, insert, erase}
use np_linuxptp_daemon.Event.Types.{
  PtpState, freerun, locked, holdover, state_eq, EventSource, dpll, ts2phc, synce, source_eq,
  source_text, LogLine, no_line, Event, ClockType, Values, get_log_data, ValueType, Value, offset,
  nmea_status, int64, int, float64,
}
use np_linuxptp_daemon.Event.Stats.{DataDetails, Data}
use np_linuxptp_daemon.Event.Grandmaster.{
  GmSync, class_uninitialized, class_7, class_out_of_spec, accuracy_unknown,
}
use np_linuxptp_daemon.Event.Handler.{
  Handler, data_of, add_event, update_gm_state, gm_interface_unknown,
}

-- The struct `ClockClassRequest`.
pub record ClockClassRequest : Type 0 where
  pub cfg_name : String
  pub gm_state : PtpState
  pub clock_type : ClockType
  pub clock_class : ℕ
  pub clock_accuracy : ℕ

-- What is set in Prometheus: the state of a process at an interface, and a measured value with the
-- labels `from`, `process` and `iface`.
pub data Metric : Type 0 where
  clock_state : String → String → ℕ → Metric
  measured : ValueType → String → EventSource → String → Value → Metric

-- What an event sends out.
pub record Output : Type 0 where
  pub logs : List LogLine
  pub metrics : List Metric
  pub told : Bool
  pub request : Option ClockClassRequest

mask_last : Char → String → String
mask_last c String.[] = "x"
mask_last c (String.◌∷◌ d s) = String.◌∷◌ c (mask_last d s)

-- An interface name with its last character replaced by an x; the empty name stays.
unfoldable pub mask_iface : String → String
unfolding mask_last
mask_iface String.[] = String.[]
mask_iface (String.◌∷◌ c s) = mask_last c s

-- The value that `UpdateClockStateMetrics` sets.
unfoldable pub state_metric : PtpState → ℕ
state_metric locked = 1
state_metric freerun = 0
state_metric holdover = 2
state_metric _ = 3

abbrev is_offset : ValueType → Bool
is_offset offset = true
is_offset _ = false

-- The label `from` of `updateMetrics`.
unfoldable pub from_label : EventSource → ValueType → String
from_label p t = if is_offset t && source_eq p ts2phc then "master" else source_text p

-- The type switch of `updateMetrics`: only an int64 and a float64 are measured.
unfoldable pub is_measured : Value → Bool
is_measured (int64 n) = true
is_measured (float64 bits) = true
is_measured _ = false

-- `updateMetrics`: what is set, with the interface of the entry.
unfoldable pub update_metrics : EventSource → String → Values → List Metric
unfolding is_measured from_label
update_metrics p iface [] = []
update_metrics p iface ((t, v) ∷ vs) =
    let rest = update_metrics p iface vs in
    if is_measured v then measured t (from_label p t) p (mask_iface iface) v ∷ rest else rest

abbrev pub is_nmea_status : ValueType → Bool
is_nmea_status nmea_status = true
is_nmea_status _ = false

-- `event.Values[NMEA_STATUS] = 0` where the key is present: the untyped 0 is stored as an int.
unfoldable pub clear_nmea : Values → Values
clear_nmea [] = []
clear_nmea ((t, v) ∷ vs) = (t, if is_nmea_status t then int (pos 0) else v) ∷ clear_nmea vs

-- `event.Values[OFFSET]`, if it is there.
unfoldable pub find_offset : Values → Option Value
find_offset [] = none
find_offset ((t, v) ∷ vs) = if is_offset t then some v else find_offset vs

-- `if event.WriteToLog && logDataValues != ""`
unfoldable pub log_if : Bool → LogLine → List LogLine
log_if write no_line = []
log_if write line = if write then line ∷ [] else []

-- The line of the grandmaster, where there is one and its interface is known.
unfoldable pub gm_log : GmSync → List LogLine
unfolding log_if
gm_log g = log_if (not (str_eq g.gm_iface gm_interface_unknown)) g.gm_log

-- The accuracy of an offset (`ClockAccuracyFromOffset` of the facebook/time package).
module _ (accuracy_from_offset : ℤ → ℕ) where
  unfoldable pub offset_accuracy : ℕ → Option Value → ℕ
  offset_accuracy a (some (int64 n)) = accuracy_from_offset n
  offset_accuracy a _ = a

  -- The clock accuracy that goes into a request: that of the handler, or in holdover and out of
  -- spec the one of the offset of a DPLL event.
  unfoldable pub request_accuracy : Handler → Event → Values → GmSync → ℕ
  unfolding offset_accuracy find_offset
  request_accuracy h e vs g =
      if (g.clock_class == class_7 || g.clock_class == class_out_of_spec)
        && source_eq e.process_name dpll
      then offset_accuracy h.clock_accuracy (find_offset vs)
      else h.clock_accuracy

  -- The request for another clock class.
  unfoldable pub class_request : Handler → Event → Values → GmSync → Option ClockClassRequest
  class_request h e vs g =
      let accuracy = request_accuracy h e vs g in
      if not (g.clock_class == class_uninitialized)
        && (not (g.clock_class == h.clock_class) || not (accuracy == h.clock_accuracy))
      then some (record {
        cfg_name = e.cfg_name;
        gm_state = g.state;
        clock_type = e.clock_type;
        clock_class = g.clock_class;
        clock_accuracy = accuracy;
      })
      else none

-- The metrics of an event whose states do not go to the socket.
unfoldable pub event_metrics : Event → Values → String → GmSync → List Metric
event_metrics e vs iface g =
    (clock_state (source_text e.process_name) (mask_iface e.iface) (state_metric e.state) ∷ [])
    ++ (update_metrics e.process_name iface vs
        ++ (update_metrics e.process_name iface vs
            ++ (if str_eq g.gm_iface gm_interface_unknown
                then []
                else clock_state "GM" (mask_iface g.gm_iface) (state_metric g.state) ∷ [])))

-- `gmSyncState[cfg].sourceLost = event.OutOfSpec`, where there is an entry.
unfoldable pub mark_source : Event → Option GmSync → Handler → Handler
mark_source e none h = h
mark_source e (some g) h = record h {
  gm_sync = insert e.cfg_name (record g { source_lost = e.out_of_spec }) h.gm_sync;
}

module _ (accuracy_from_offset : ℤ → ℕ) where
  -- The branch of an event that is neither a reset nor of synce4l. The `Option` is the entry of
  -- the event's interface; `none` would be a nil dereference.
  unfoldable pub report : Bool → Event → Option DataDetails → Handler → GmSync → Option Output
  report told e none h g = none
  report told e (some dd) h g =
      let vs = if state_eq g.state locked then e.values else clear_nmea e.values in
      some (record {
        logs = log_if e.write_to_log dd.log_data ++ gm_log g;
        metrics = if h.stdout_to_socket then [] else event_metrics e vs dd.iface g;
        told = told;
        request = class_request accuracy_from_offset h e vs g;
      })

  unfoldable pub process_report : Bool → ℕ → Event → Handler → Handler × Option Output
  process_report subscribed now e h =
      let added = add_event subscribed now e h in
      let decided = update_gm_state now e.cfg_name added.0 in
      let h' = mark_source e (lookup e.cfg_name decided.0.gm_sync) decided.0 in
      (h', report added.1 e added.2 h' decided.1)

-- The branch of synce4l: a log line and a metric.
unfoldable pub process_synce : ℕ → Event → Output
process_synce now e = record {
  logs = log_if e.write_to_log (get_log_data now e);
  metrics = clock_state (source_text e.process_name) e.iface (state_metric e.state) ∷ [];
  told = false;
  request = none;
}

-- `append(s[:i], s[i+1:]...)` on a slice of length `m` over its array: the items behind `i` move
-- down by one, and the array keeps what lies from `m - 1` on.
unfoldable pub shift_down {ℓ} : {A : Type ℓ} → ℕ → ℕ → List A → List A
shift_down zero (suc (suc m)) (x ∷ y ∷ b) = y ∷ shift_down zero (suc m) (y ∷ b)
shift_down (suc i) (suc m) (x ∷ b) = x ∷ shift_down i m b
shift_down _ _ b = b

-- The round of the loop at the index `i`, which reads the item `i` of the array: the array and the
-- length of the slice.
unfoldable pub reset_round : EventSource → ℕ → Option Data → List Data × ℕ → List Data × ℕ
reset_round p i none (b, m) = (b, m)
reset_round p i (some d) (b, m) =
    if source_eq d.process_name p && ltb i m then (shift_down i m b, m - 1) else (b, m)

-- `for indexToRemove, d := range e.data[event.CfgName]`, which ranges over the slice as it was, with
-- `k` rounds left from the index `i`.
unfoldable pub reset_loop : EventSource → ℕ → ℕ → List Data × ℕ → List Data × ℕ
reset_loop p zero i s = s
reset_loop p (suc k) i s = reset_loop p k (suc i) (reset_round p i (get_elem? s.0 i) s)

unfoldable pub reset_slice : EventSource → List Data → List Data
reset_slice p ds = let (b, m) = reset_loop p (length ds) 0 (ds, length ds) in take m b

abbrev pub reset_profile :
    EventSource → String → Option (List Data) → Map (List Data) → Map (List Data)
reset_profile p cfg none profiles = profiles
reset_profile p cfg (some ds) profiles = insert cfg (reset_slice p ds) profiles

-- The branch of a reset.
unfoldable pub process_reset : Event → Handler → Handler
process_reset e h =
    if source_eq e.process_name ts2phc
    then record h {
      profiles = erase e.cfg_name h.profiles;
      clock_class = class_uninitialized;
      clock_accuracy = accuracy_unknown;
    }
    else record h {
      profiles = reset_profile e.process_name e.cfg_name (lookup e.cfg_name h.profiles) h.profiles;
      gm_sync = erase e.cfg_name h.gm_sync;
      out_of_spec = false;
      frequency_traceable = false;
    }

abbrev pub silent : Output
silent = record { logs = []; metrics = []; told = false; request = none }

-- One round of the loop of `ProcessEvents`; no output is a nil dereference.
unfoldable pub process_event : (ℤ → ℕ) → Bool → ℕ → Event → Handler → Handler × Option Output
process_event accuracy_from_offset subscribed now e h =
    if e.reset
    then (process_reset e h, some silent)
    else if source_eq e.process_name synce
    then (h, some (process_synce now e))
    else process_report accuracy_from_offset subscribed now e h
