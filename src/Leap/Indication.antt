-- ===== src/Leap/Indication.antt =====
-- The leap indications of the receiver: TimeLs (pkg/ublox/ublox.go), processLeapIndication and
-- handleLeapIndication (pkg/leap/leap-file.go). The present time is an argument.
pub mod Settles
use np_linuxptp_daemon.Base.{
  ℕ, ◌+◌, ◌*◌, ◌/◌, ◌%◌, ◌^◌, Bool, true, false, not, ◌&&◌, List, [], Option, none, some, String,
  ◌==◌, ltb, if◌then◌else◌,
}
use np_linuxptp_daemon.Base.Int.{ℤ, pos, negsuc, ◌+ℤ◌, ◌-ℤ◌, eqb_ℤ, ltb_ℤ, leb_ℤ}
use np_linuxptp_daemon.Base.Map.{Map}
use np_linuxptp_daemon.Strings.{Bytes}
use np_linuxptp_daemon.Strings.Number.{parse_int}
use np_linuxptp_daemon.Leap.File.{LeapEvent}
use np_linuxptp_daemon.Leap.Calendar.{nanoseconds, time_of}
use np_linuxptp_daemon.Leap.Manager.{Manager, last_event, update_leap_file, update_leap_configmap}

-- The struct `TimeLs`.
pub record TimeLs : Type 0 where
  pub src_of_curr_ls : ℕ
  pub curr_ls : ℤ
  pub src_of_ls_change : ℕ
  pub ls_change : ℤ
  pub time_to_ls_event : ℤ
  pub date_of_ls_gps_wn : ℕ
  pub date_of_ls_gps_dn : ℕ
  pub valid : ℕ

abbrev leap_source_gps : ℕ
leap_source_gps = 2

abbrev pub gps_to_tai_diff : ℤ
gps_to_tai_diff = pos 19

-- `data.Valid & 0x1` and `data.Valid & 0x2` above zero
abbrev pub valid_curr_ls : TimeLs → Bool
valid_curr_ls d = d.valid % 2 == 1

abbrev pub valid_time_to_ls_event : TimeLs → Bool
valid_time_to_ls_event d = d.valid / 2 % 2 == 1

-- `int(data.CurrLs) + gpsToTaiDiff + int(data.LsChange)`
unfoldable pub leap_sec_of : TimeLs → ℤ
leap_sec_of d = d.curr_ls +ℤ gps_to_tai_diff +ℤ d.ls_change

-- What comes out: nothing, an error of one of the two conversions, the panic on a file without
-- events, or the pointer to a `leapIndResult`.
pub data Indication : Type 0 where
  ignored : Indication
  bad_leap_time : Indication
  bad_duration : Indication
  no_events : Indication
  found : ℤ → ℤ → ℤ → Indication

-- The sixth of January 1980.
abbrev gps_start_time : ℤ
gps_start_time = pos (2524953600 * nanoseconds)

-- The hours of `deltaHours`, as the 64 bits of a `uint`.
abbrev pub delta_hours : TimeLs → ℕ
delta_hours d = (d.date_of_ls_gps_wn * 7 * 24 + d.date_of_ls_gps_dn * 24) % 2 ^ 64

-- The most hours that `time.ParseDuration` takes.
abbrev pub most_hours : ℕ
most_hours = 2562047

-- `currentTime.Add(-pmcWindowEndSeconds * time.Second)`
abbrev pub before_now : ℤ → ℤ
before_now now = now -ℤ pos (60 * nanoseconds)

-- The result, where the file is to be updated.
unfoldable pub leap_result : TimeLs → ℤ → Indication
leap_result d now =
    if ltb most_hours (delta_hours d)
    then bad_duration
    else if eqb_ℤ d.ls_change (pos 0) && leb_ℤ (pos 0) d.time_to_ls_event
    then found (before_now now) (leap_sec_of d) now
    else found (gps_start_time +ℤ pos (delta_hours d * 3600 * nanoseconds)) (leap_sec_of d) now

-- The test against the last event of the file, whose time was read.
abbrev pub compare_file : TimeLs → ℤ → LeapEvent → Option ℤ → Indication
compare_file d now e none = bad_leap_time
compare_file d now e (some sec) =
    if valid_time_to_ls_event d
      && valid_curr_ls d
      && (not (eqb_ℤ (leap_sec_of d) e.leap_sec) && ltb_ℤ (time_of sec) now)
    then leap_result d now
    else ignored

abbrev pub with_last : TimeLs → ℤ → Option LeapEvent → Indication
with_last d now none = no_events
with_last d now (some e) = compare_file d now e (parse_int 64 e.leap_time)

-- `processLeapIndication`
unfoldable pub process_leap_indication : TimeLs → ℤ → Manager → Indication
unfolding leap_sec_of leap_result time_of last_event
process_leap_indication d now m =
    if d.src_of_curr_ls == leap_source_gps
    then with_last d now (last_event m.leap_file.leap_events)
    else ignored

abbrev stored_with :
    String → Option (Map Bytes) → Bool → Option Manager → Option (Manager × Option (Map Bytes))
stored_with node cm accepts none = none
stored_with node cm accepts (some m) = some (update_leap_configmap node cm accepts m)

abbrev handle_found :
    (Bytes → Bytes)
    → String
    → Option (Map Bytes)
    → Bool
    → Manager
    → Indication
    → Option (Manager × Option (Map Bytes))
handle_found sha1_hex node cm accepts m ignored = some (m, none)
handle_found sha1_hex node cm accepts m bad_leap_time = some (m, none)
handle_found sha1_hex node cm accepts m bad_duration = some (m, none)
handle_found sha1_hex node cm accepts m no_events = none
handle_found sha1_hex node cm accepts m (found time sec now) =
    stored_with node cm accepts (update_leap_file sha1_hex time sec now m)

-- `handleLeapIndication`: none is a panic; the data are those that the configmap took.
unfoldable pub handle_leap_indication :
    (Bytes → Bytes)
    → String
    → Option (Map Bytes)
    → Bool
    → TimeLs
    → ℤ
    → Manager
    → Option (Manager × Option (Map Bytes))
unfolding process_leap_indication update_leap_file update_leap_configmap
handle_leap_indication sha1_hex node cm accepts d now m =
    handle_found sha1_hex node cm accepts m (process_leap_indication d now m)
