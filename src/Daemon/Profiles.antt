-- ===== src/Daemon/Profiles.antt =====
-- What pkg/daemon/daemon.go reads from a profile: listHaProfiles, ApplyHaProfiles and addScheduling,
-- and the lines that announce a fail-over.
pub mod Found
use np_linuxptp_daemon.Base.{
  ℕ, Bool, true, false, ◌||◌, List, [], ◌∷◌, ◌++◌, map, Option, none, some, ◌==◌, if◌then◌else◌,
}
use np_linuxptp_daemon.Base.Int.{ℤ, pos, ltb_ℤ}
use np_linuxptp_daemon.Strings.{Bytes, codes, bytes_eq, contains, trim_space}
use np_linuxptp_daemon.Strings.Lines.{split}
use np_linuxptp_daemon.Strings.Fields.{join}
use np_linuxptp_daemon.Strings.Number.{format_int}
use np_linuxptp_daemon.Strings.Dict.{Dict, find, put}

-- The fields of a process that `ApplyHaProfiles` reads: the name of its profile, if it has one, its
-- socket, and the names of its interfaces.
pub record HaProcess : Type 0 where
  pub profile : Option Bytes
  pub socket_path : Bytes
  pub ifaces : List Bytes

abbrev profiles_of : Option Bytes → List Bytes
profiles_of none = []
profiles_of (some profiles) = map trim_space (split b',' profiles)

-- `listHaProfiles`, on the settings of the profile
unfoldable pub list_ha_profiles : Dict Bytes → List Bytes
unfolding find trim_space
list_ha_profiles settings = profiles_of (find (codes "haProfiles") settings)

abbrev pub is_profile : Bytes → Option Bytes → Bool
is_profile name none = false
is_profile name (some n) = bytes_eq n name

-- The inner loop, which ends at the first process of the profile.
unfoldable pub process_of : Bytes → List HaProcess → Option HaProcess
process_of name [] = none
process_of name (p ∷ ps) =
    let rest = process_of name ps in if is_profile name p.profile then some p else rest

-- What the loops have made: the interfaces by the profile, and the sockets.
pub record HaFound : Type 0 where
  pub profiles : Dict (List Bytes)
  pub sockets : List Bytes

abbrev pub add_found : Bytes → Option HaProcess → HaFound → HaFound
add_found name none found = found
add_found name (some p) found = record {
  profiles = put name p.ifaces found.profiles;
  sockets = found.sockets ++ (codes "-z " ++ p.socket_path) ∷ [];
}

-- The outer loop.
unfoldable pub ha_loop : List Bytes → List HaProcess → HaFound → HaFound
unfolding process_of
ha_loop [] ps found = found
ha_loop (name ∷ names) ps found = ha_loop names ps (add_found name (process_of name ps) found)

abbrev with_sockets : Bytes → List Bytes → Bytes
with_sockets cmd_line [] = cmd_line
with_sockets cmd_line (s ∷ sockets) = cmd_line ++ join (s ∷ sockets)

-- `ApplyHaProfiles`
unfoldable pub apply_ha_profiles : Dict Bytes → List HaProcess → Bytes → Dict (List Bytes) × Bytes
unfolding list_ha_profiles ha_loop join
apply_ha_profiles settings ps cmd_line =
    let found = ha_loop (list_ha_profiles settings) ps (record { profiles = []; sockets = [] }) in
    (found.profiles, with_sockets cmd_line found.sockets)

-- `failOverIndicator`: the state of the domain and that of the profile.
unfoldable pub fail_over_indicator : Bytes → ℕ → ℕ × ℕ
unfolding contains
fail_over_indicator output count =
    if contains output (codes "as domain source clock")
    then (if count == 1 then (1, 1) else (1, 0))
    else if contains output (codes "as out-of-domain source")
    then (0, 1)
    else (0, 0)

abbrev is_fifo : Option Bytes → Bool
is_fifo none = false
is_fifo (some policy) = bytes_eq policy (codes "SCHED_FIFO")

abbrev with_priority : Bytes → Option ℤ → Bytes
with_priority cmd_line none = cmd_line
with_priority cmd_line (some priority) =
    if ltb_ℤ priority (pos 1) || ltb_ℤ (pos 65) priority
    then cmd_line
    else codes "/bin/chrt -f " ++ (format_int priority ++ b' ' ∷ cmd_line)

-- `addScheduling`, on the policy and the priority of the profile
unfoldable pub add_scheduling : Option Bytes → Option ℤ → Bytes → Bytes
unfolding format_int
add_scheduling policy priority cmd_line =
    if is_fifo policy then with_priority cmd_line priority else cmd_line

-- `containsAny`
unfoldable pub contains_any : Bytes → List Bytes → Bool
unfolding contains
contains_any output [] = false
contains_any output (i ∷ indicators) = contains output i || contains_any output indicators
