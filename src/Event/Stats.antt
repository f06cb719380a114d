-- ===== src/Event/Stats.antt =====
-- pkg/event/stats.go: what is stored of one process of a profile, interface by interface.
pub mod Combined
pub mod Details
use np_linuxptp_daemon.Base.{
  ℕ, ◌≡◌, Bool, true, false, not, ◌&&◌, List, [], ◌∷◌, ◌++◌, Option, none, some, String, str_eq,
  if◌then◌else◌,
}
use mathlib.Core.Option
use np_linuxptp_daemon.Base.Int.{ℤ, leb_ℤ}
use np_linuxptp_daemon.Event.Types.{
  PtpState, no_state, freerun, holdover, locked, unknown, not_set, state_eq, EventSource, no_source,
  ClockType, LogLine, Event, get_log_data,
}

-- The struct `DataDetails` less its metrics.
pub record DataDetails : Type 0 where
  pub iface : String
  pub state : PtpState
  pub clock_type : ClockType
  pub time : ℤ
  pub log_data : LogLine
  pub signal_source : EventSource
  pub source_lost : Bool

-- The struct `Data`.
pub record Data : Type 0 where
  pub process_name : EventSource
  pub details : List DataDetails
  pub state : PtpState
  pub log_data : LogLine

-- The `switch` in the loop of `UpdateState`: the state so far and that of the next interface.
update_step : PtpState → PtpState → PtpState
update_step so_far freerun = if state_eq so_far holdover then so_far else freerun
update_step so_far holdover = holdover
update_step so_far locked =
    if not (state_eq so_far freerun) && not (state_eq so_far holdover) then locked else so_far
update_step so_far _ = so_far

unfoldable pub update_loop : PtpState → List DataDetails → PtpState
unfolding update_step
update_loop so_far [] = so_far
update_loop so_far (d ∷ ds) = update_loop (update_step so_far d.state) ds

-- `Data.UpdateState`
unfoldable pub update_state : Data → Data
unfolding update_loop
update_state d = record d { state = update_loop unknown d.details }

-- `Data.GetDataDetails`, on the list of details; `none` is the nil pointer.
unfoldable pub get_details : String → List DataDetails → Option DataDetails
get_details iface [] = none
get_details iface (d ∷ ds) = if str_eq d.iface iface then some d else get_details iface ds

-- What the loop of `AddEvent` does to the entry of the event's interface. The second part says
-- whether the subscribers are told.
unfoldable pub touch : Bool → ℕ → Event → DataDetails → DataDetails × Bool
unfolding get_log_data
touch subscribed now e dd =
    if leb_ℤ dd.time e.time
    then (
      record dd {
        state = e.state;
        source_lost = e.source_lost;
        clock_type = e.clock_type;
        time = e.time;
        log_data = get_log_data now e;
      },
      not (state_eq dd.state e.state) && subscribed,
    )
    else (dd, false)

-- The loop of `AddEvent`; `none` means that no entry is for the event's interface.
unfoldable pub add_loop : Bool → ℕ → Event → List DataDetails → Option (List DataDetails × Bool)
unfolding touch
add_loop subscribed now e [] = none
add_loop subscribed now e (dd ∷ ds) =
    let rest = add_loop subscribed now e ds in
    if str_eq dd.iface e.iface
    then some ((touch subscribed now e dd).0 ∷ ds, (touch subscribed now e dd).1)
    else Option.map (λ r. (dd ∷ r.0, r.1)) rest

-- The entry that `AddEvent` makes for an interface that it has not met.
unfoldable pub new_details : ℕ → Event → DataDetails
unfolding get_log_data
new_details now e = record {
  iface = e.iface;
  state = e.state;
  clock_type = e.clock_type;
  time = e.time;
  log_data = get_log_data now e;
  signal_source = no_source;
  source_lost = e.source_lost;
}

-- What follows the loop of `AddEvent`: the loop has returned, or an entry is appended.
abbrev pub after_loop : Bool → ℕ → Event → Data → Option (List DataDetails × Bool) → Data × Bool
after_loop subscribed now e d (some (ds, told)) = (record d { details = ds }, told)
after_loop subscribed now e d none = (
  record d { details = d.details ++ new_details now e ∷ []; log_data = get_log_data now e },
  subscribed,
)

-- `Data.AddEvent`. `subscribed` says whether there are subscribers; the second part of the result
-- whether they are notified of the event's process and state.
unfoldable pub add_event : Bool → ℕ → Event → Data → Data × Bool
add_event subscribed now e d = after_loop subscribed now e d (add_loop subscribed now e d.details)
