-- ===== src/Event/ClockClass.antt =====
-- The update of the clock class (updateCLockClass and UpdateClockClass in pkg/event/event.go) over
-- the grandmaster settings of pkg/protocol/type.go. The pmc tool is a parameter: what it reads, and
-- the error of a write.
pub mod Update
pub mod Settles
use np_linuxptp_daemon.Base.{
  ℕ, zero, suc, ◌+◌, ◌-◌, ◌*◌, ◌≤◌, ◌<◌, ◌≡◌, refl, sym, ap, ◌∙◌, ◌≢◌, ◌↔◌, ◌⊎◌, inl, inr, Bool,
  true, false, not, ◌&&◌, ◌||◌, List, [], ◌∷◌, ◌++◌, map, Option, none, some, String, arith, str_eq,
  str_eq_iff, if◌then◌else◌, any, All, Bool-cases, Option-cases, ◌==◌, ltb, leb, length, get_elem?,
  take, drop,
}
use np_linuxptp_daemon.Base.Int.{ℤ}
use np_linuxptp_daemon.Event.Types.{ClockType, gm, bc, oc, no_type, LogLine, class_line}
use np_linuxptp_daemon.Event.Grandmaster.{
  class_6, class_7, class_out_of_spec, class_freerun, accuracy_nanosecond_100, accuracy_unknown,
}
use np_linuxptp_daemon.Event.Handler.{Handler}
use np_linuxptp_daemon.Event.Process.{ClockClassRequest}

-- The struct `TimePropertiesDS`.
pub record TimeProperties : Type 0 where
  pub current_utc_offset : ℤ
  pub current_utc_offset_valid : Bool
  pub leap59 : Bool
  pub leap61 : Bool
  pub time_traceable : Bool
  pub frequency_traceable : Bool
  pub ptp_timescale : Bool
  pub time_source : ℕ

-- The struct `GrandmasterSettings`, with the fields of its clock quality.
pub record Settings : Type 0 where
  pub clock_class : ℕ
  pub clock_accuracy : ℕ
  pub offset_scaled_log_variance : ℕ
  pub time_properties : TimeProperties

abbrev pub source_gnss : ℕ
source_gnss = 0x20

abbrev pub source_internal_oscillator : ℕ
source_internal_oscillator = 0xa0

-- The value of `err`: nil, or the text of an error.
abbrev pub Err : Type 0
Err = Option String

-- What the getter returns.
pub data Fetched : Type 0 where
  failed : String → Fetched
  fetched : Settings → Fetched

-- The four assignments at the head of `case GM`; the offset is `int32(leap.GetUtcOffset())`.
unfoldable pub prepare : ℤ → Settings → Settings
prepare utc_offset g = record g {
  time_properties = record (g.time_properties) {
    ptp_timescale = true;
    frequency_traceable = true;
    current_utc_offset_valid = true;
    current_utc_offset = utc_offset;
  };
}

-- The assignments of one case.
unfoldable pub assign : ℕ → Bool → ℕ → ℕ → ℕ → Settings → Settings
assign class traceable accuracy source variance g = record g {
  clock_class = class;
  clock_accuracy = accuracy;
  offset_scaled_log_variance = variance;
  time_properties = record (g.time_properties) { time_traceable = traceable; time_source = source };
}

-- The `switch clkClass`: the settings, and whether they are to be sent.
unfoldable pub class_switch : ℕ → ℕ → Settings → Settings × Bool
unfolding assign
class_switch class accuracy g =
    if class == class_6
    then (if g.clock_class == class_6
        then (g, false)
        else (assign class_6 true accuracy_nanosecond_100 source_gnss 0x4e5d g, true))
    else if class == class_out_of_spec
    then (if g.clock_class == class_out_of_spec
        then (g, false)
        else (assign class_out_of_spec false accuracy source_internal_oscillator 0xffff g, true))
    else if class == class_7
    then (if g.clock_class == class_7
        then (g, false)
        else (assign class_7 true accuracy source_internal_oscillator 0xffff g, true))
    else if class == class_freerun
    then (if g.clock_class == class_freerun then (g, false) else (
      assign class_freerun false accuracy_unknown source_internal_oscillator 0xffff g,
      true,
    ))
    else (g, false)

-- The result of `updateCLockClass`: the error, the clock class, the accuracy, and the settings
-- that were handed to the setter.
pub record Updated : Type 0 where
  pub err : Err
  pub clock_class : ℕ
  pub clock_accuracy : ℕ
  pub sent : Option Settings

-- The call of the setter and the return.
unfoldable pub send : (Settings → Err) → Settings × Bool → Updated
send set (g, true) = record {
  err = set g;
  clock_class = g.clock_class;
  clock_accuracy = g.clock_accuracy;
  sent = some g;
}
send set (g, false) = record {
  err = none;
  clock_class = g.clock_class;
  clock_accuracy = g.clock_accuracy;
  sent = none;
}

-- The `switch clockType`.
unfoldable pub type_switch : ℤ → ClockType → ℕ → ℕ → Settings → Settings × Bool
type_switch utc_offset gm class accuracy g = class_switch class accuracy (prepare utc_offset g)
type_switch utc_offset _ class accuracy g = (g, false)

-- `updateCLockClass`
unfoldable pub update_clock_class : (Settings → Err) → ℤ → ClockType → ℕ → ℕ → Fetched → Updated
update_clock_class set utc_offset t class accuracy (failed e) = record {
  err = some e;
  clock_class = 0;
  clock_accuracy = 0;
  sent = none;
}
update_clock_class set utc_offset t class accuracy (fetched g) =
    send set (type_switch utc_offset t class accuracy g)

-- The end of `UpdateClockClass`: on success the handler keeps the class and the accuracy, and a
-- line tells of it.
unfoldable pub keep_class : ℕ → String → Updated → Err → Handler → Handler × Option LogLine
keep_class now cfg u (some e) h = (h, none)
keep_class now cfg u none h = (
  record h { clock_class = u.clock_class; clock_accuracy = u.clock_accuracy },
  some (class_line now cfg u.clock_class),
)

-- `UpdateClockClass`
unfoldable pub serve_request :
    (Settings → Err) → ℤ → ℕ → Fetched → ClockClassRequest → Handler → Handler × Option LogLine
unfolding keep_class
serve_request set utc_offset now read r h =
    let u = update_clock_class set utc_offset r.clock_type r.clock_class r.clock_accuracy read in
    keep_class now r.cfg_name u u.err h
