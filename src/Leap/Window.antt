-- ===== src/Leap/Window.antt =====
-- IsLeapInWindow and a tick of Run (pkg/leap/leap-file.go). The pmc tool is a parameter: the
-- settings that it reads, or none for an error, and whether it takes new ones.
pub mod Shifted
pub mod Once
use np_linuxptp_daemon.Base.{
  ℕ, ◌*◌, Bool, true, false, ◌&&◌, List, [], Option, none, some, String, if◌then◌else◌,
}
use np_linuxptp_daemon.Base.Int.{ℤ, pos, ◌+ℤ◌, ◌-ℤ◌, ltb_ℤ}
use np_linuxptp_daemon.Base.Map.{Map}
use np_linuxptp_daemon.Strings.{Bytes}
use np_linuxptp_daemon.Strings.Number.{parse_int}
use np_linuxptp_daemon.Leap.File.{LeapEvent}
use np_linuxptp_daemon.Leap.Calendar.{nanoseconds, time_of}
use np_linuxptp_daemon.Leap.Manager.{Manager, last_event, update_leap_configmap}
use np_linuxptp_daemon.Event.ClockClass.{Settings, TimeProperties}

-- `now.After(leapWindowStart) && now.Before(leapWindowEnd)`
abbrev pub is_between : ℤ → ℤ → ℤ → ℤ → Bool
is_between leap now start_offset end_offset =
    ltb_ℤ (leap +ℤ start_offset) now && ltb_ℤ now (leap +ℤ end_offset)

abbrev window_of : ℤ → ℤ → ℤ → Option ℤ → Bool
window_of now start_offset end_offset none = false
window_of now start_offset end_offset (some sec) =
    is_between (time_of sec) now start_offset end_offset

abbrev pub window_at : ℤ → ℤ → ℤ → Option LeapEvent → Option Bool
window_at now start_offset end_offset none = none
window_at now start_offset end_offset (some e) =
    some (window_of now start_offset end_offset (parse_int 64 e.leap_time))

-- `IsLeapInWindow`: none is the panic on a file without events.
unfoldable pub is_leap_in_window : Manager → ℤ → ℤ → ℤ → Option Bool
unfolding time_of last_event
is_leap_in_window m now start_offset end_offset =
    window_at now start_offset end_offset (last_event m.leap_file.leap_events)

-- The offsets of the window in `Run`.
abbrev pub window_start : ℤ
window_start = pos 0 -ℤ pos (12 * 3600 * nanoseconds)

abbrev pub window_end : ℤ
window_end = pos 0 -ℤ pos (60 * nanoseconds)

-- What one tick meets: the configmap and whether it takes an update, the time, and pmc.
pub record Around : Type 0 where
  pub cm : Option (Map Bytes)
  pub accepts : Bool
  pub now : ℤ
  pub settings : Option Settings
  pub set_works : Bool

-- What one tick leaves: the manager, and the settings that pmc took.
pub record Tick : Type 0 where
  pub manager : Manager
  pub taken : Option Settings

abbrev pub with_flags : Settings → Bool → Bool → Settings
with_flags g leap59 leap61 = record g {
  time_properties = record (g.time_properties) { leap59 = leap59; leap61 = leap61 };
}

-- The command to pmc: the flag is set once pmc took it.
abbrev pub send_settings : Manager → Bool → Settings → Tick
send_settings m false g = record { manager = m; taken = none }
send_settings m true g = record { manager = record m { pmc_leap_sent = true }; taken = some g }

-- The three cases of `leapDiff`.
unfoldable pub send_leap : Manager → ℤ → Bool → Settings → Tick
send_leap m leap_diff works g =
    if ltb_ℤ (pos 0) leap_diff
    then send_settings m works (with_flags g false true)
    else if ltb_ℤ leap_diff (pos 0)
    then send_settings m works (with_flags g true false)
    else record { manager = record m { pmc_leap_sent = true }; taken = none }

abbrev quiet : Manager → Tick
quiet m = record { manager = m; taken = none }

abbrev pub leap_event_sent : Manager → Bool → Option LeapEvent → Option Settings → Option Tick
leap_event_sent m works e none = some (quiet m)
leap_event_sent m works none (some g) = none
leap_event_sent m works (some e) (some g) =
    some (send_leap m (e.leap_sec -ℤ g.time_properties.current_utc_offset) works g)

abbrev pub in_window_tick : Around → Manager → Option Bool → Option Tick
in_window_tick a m none = none
in_window_tick a m (some false) = some (quiet (record m { pmc_leap_sent = false }))
in_window_tick a m (some true) =
    if m.pmc_leap_sent
    then some (quiet m)
    else leap_event_sent m a.set_works (last_event m.leap_file.leap_events) a.settings

-- `if l.retryUpdate { l.updateLeapConfigmap() }`
abbrev pub retried : String → Around → Manager → Manager
retried node a m = if m.retry_update then (update_leap_configmap node a.cm a.accepts m).0 else m

-- The case of the ticker in `Run`: none is a panic.
unfoldable pub tick : String → Around → Manager → Option Tick
unfolding is_leap_in_window send_leap update_leap_configmap
tick node a m =
    let n = retried node a m in
    in_window_tick a n (is_leap_in_window n a.now window_start window_end)
