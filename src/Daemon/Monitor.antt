-- ===== src/Daemon/Monitor.antt =====
-- addFlagsForMonitor (pkg/daemon/metrics.go).
pub mod Once
use np_linuxptp_daemon.Base.{
  ◌≡◌, refl, sym, ap, ◌∙◌, ◌≢◌, Bool, true, false, not, ◌&&◌, ◌||◌, List, [], ◌∷◌, ◌++◌, map,
  Option, none, some, arith, ◌==◌, if◌then◌else◌, Bool-cases, inl, inr,
}
use np_linuxptp_daemon.Strings.{Bytes, codes, bytes_eq, has_prefix, contains}
use np_linuxptp_daemon.Strings.Dict.{Dict, find, put, find-put}
use np_linuxptp_daemon.Daemon.Config.{Section, global_name, is_empty}

-- The processes that the function tells apart.
pub data Process : Type 0 where
  ptp4l : Process
  phc2sys : Process
  ts2phc : Process
  other_process : Process

abbrev is_some : Option Bytes → Bool
is_some none = false
is_some (some v) = true

-- A section with the interval of the summaries, where it is the global one and has none.
unfoldable pub add_interval : Section → Section
unfolding find put
add_interval s =
    if bytes_eq s.section_name global_name
      && not (is_some (find (codes "summary_interval") s.options))
    then record s { options = put (codes "summary_interval") (codes "1") s.options }
    else s

-- `if !strings.Contains(*configOpts, "-m")`
unfoldable pub add_message_flag : Bytes → Bytes
unfolding contains
add_message_flag opts = if contains opts (codes "-m") then opts else opts ++ codes " -m"

abbrev add_summary_flag : Bool → Bytes → Bytes
add_summary_flag stdout_to_socket opts =
    if not stdout_to_socket && not (contains opts (codes "-u")) then opts ++ codes " -u 1" else opts

-- `addFlagsForMonitor`: the options of the process, none for a nil pointer, and the sections.
unfoldable pub add_flags_for_monitor :
    Process → Bool → Option Bytes → List Section → Option Bytes × List Section
unfolding add_interval add_message_flag contains
add_flags_for_monitor ptp4l socket none sections = (none, sections)
add_flags_for_monitor ptp4l socket (some opts) sections =
    let flagged = add_message_flag opts in
    (
      some flagged,
      if contains flagged (codes "--summary_interval") then sections else map add_interval sections,
    )
add_flags_for_monitor phc2sys socket none sections = (none, sections)
add_flags_for_monitor phc2sys socket (some opts) sections = (
  some (if is_empty opts then opts else add_summary_flag socket (add_message_flag opts)),
  sections,
)
add_flags_for_monitor ts2phc socket opts sections = (opts, sections)
add_flags_for_monitor other_process socket opts sections = (opts, sections)
