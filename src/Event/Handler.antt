-- ===== src/Event/Handler.antt =====
-- The event handler (EventHandler in pkg/event/event.go): the stored state of each profile and the
-- grandmaster state that is computed from it.
pub mod Store
pub mod Gm
use np_linuxptp_daemon.Base.{
  ℕ, zero, suc, ◌+◌, ◌-◌, ◌*◌, ◌≤◌, ◌<◌, ◌≡◌, refl, sym, ap, ◌∙◌, ◌≢◌, ◌↔◌, ◌⊎◌, inl, inr, Bool,
  true, false, not, ◌&&◌, ◌||◌, List, [], ◌∷◌, ◌++◌, map, Option, none, some, String, arith, str_eq,
  str_eq_iff, if◌then◌else◌, any, All, Bool-cases, Option-cases, ◌==◌, ltb, leb, length, get_elem?,
  take, drop,
}
use np_linuxptp_daemon.Base.Map.{Map, lookup, insert}
use mathlib.Core.Option
use np_linuxptp_daemon.Event.Types.{
  PtpState, no_state, freerun, not_set, unknown, locked, EventSource, gnss, dpll, ts2phc, source_eq,
  LogLine, no_line, gm_line, Event,
}
use np_linuxptp_daemon.Event.Stats
use np_linuxptp_daemon.Event.Stats.{DataDetails, Data, get_details, update_state}
use np_linuxptp_daemon.Event.Grandmaster.{
  GmSync, Inputs, gm_decide, class_uninitialized, class_freerun, accuracy_unknown,
}

-- The struct `EventHandler` less its sockets, its channels and the Prometheus vectors. The field
-- `data` is `profiles` here.
pub record Handler : Type 0 where
  pub profiles : Map (List Data)
  pub clock_class : ℕ
  pub clock_accuracy : ℕ
  pub gm_sync : Map GmSync
  pub out_of_spec : Bool
  pub frequency_traceable : Bool
  pub stdout_to_socket : Bool

-- `e.data[cfgName]`, the empty slice if there is none.
abbrev pub data_of : String → Handler → List Data
data_of cfg h = Option.get_or (lookup cfg h.profiles) []

-- The search of `GetData` and `GetPTPState`.
unfoldable pub find_data : EventSource → List Data → Option Data
find_data p [] = none
find_data p (d ∷ ds) = if source_eq d.process_name p then some d else find_data p ds

-- The entry that `GetData` makes.
abbrev pub new_data : EventSource → Data
new_data p = record { process_name = p; details = []; state = unknown; log_data = no_line }

-- A write through the pointer that `GetData` returned: the first entry of the process.
unfoldable pub put_data : Data → List Data → List Data
put_data x [] = []
put_data x (d ∷ ds) = if source_eq d.process_name x.process_name then x ∷ ds else d ∷ put_data x ds

-- `GetData` after its search: the slice, with an entry for the process, and the entry.
abbrev pub got_data : EventSource → List Data → Option Data → List Data × Data
got_data p ds (some d) = (ds, d)
got_data p ds none = (ds ++ new_data p ∷ [], new_data p)

-- `GetData` on the slice of a profile.
unfoldable pub get_data : EventSource → List Data → List Data × Data
get_data p ds = got_data p ds (find_data p ds)

-- `updateSpecState`
unfoldable pub update_spec_state : Event → Handler → Handler
update_spec_state e h =
    if source_eq e.process_name dpll
    then record h { out_of_spec = e.out_of_spec; frequency_traceable = e.frequency_traceable }
    else h

-- `addEvent`: the handler, whether the subscribers are notified, and the entry of the event's
-- interface.
unfoldable pub add_event : Bool → ℕ → Event → Handler → Handler × Bool × Option DataDetails
unfolding get_data update_spec_state
add_event subscribed now e h =
    let got = get_data e.process_name (data_of e.cfg_name h) in
    let added = Stats.add_event subscribed now e got.1 in
    let d = update_state added.0 in
    (
      record (update_spec_state e h) { profiles = insert e.cfg_name (put_data d got.0) h.profiles },
      added.1,
      get_details e.iface d.details,
    )

pub first_source_lost : List DataDetails → Bool → Bool
first_source_lost [] rest = rest
first_source_lost (dd ∷ dds) rest = dd.source_lost

pub source_lost_loop : List Data → Bool
source_lost_loop [] = false
source_lost_loop (d ∷ ds) =
    let rest = source_lost_loop ds in
    if source_eq d.process_name gnss then first_source_lost d.details rest else rest

-- `isSourceLost`
unfoldable pub is_source_lost : String → Handler → Bool
unfolding source_lost_loop first_source_lost
is_source_lost cfg h = source_lost_loop (data_of cfg h)

abbrev pub gm_interface_unknown : String
gm_interface_unknown = "unknown"

gnss_signal : List DataDetails → String → String
gnss_signal [] rest = rest
gnss_signal (dd ∷ dds) rest =
    if source_eq dd.signal_source gnss then dd.iface else gnss_signal dds rest

-- The `if` and the `else if` of `getGNSSInterface`, given the result for the rest of the slice.
gnss_iface_of : EventSource → List DataDetails → String → String
unfolding gnss_signal
gnss_iface_of p [] rest = rest
gnss_iface_of p (dd ∷ dds) rest =
    if source_eq p gnss
    then dd.iface
    else if source_eq p ts2phc
    then gnss_signal (dd ∷ dds) rest
    else rest

gnss_interface_loop : List Data → String
unfolding gnss_iface_of
gnss_interface_loop [] = gm_interface_unknown
gnss_interface_loop (d ∷ ds) = gnss_iface_of d.process_name d.details (gnss_interface_loop ds)

-- `getGNSSInterface`
unfoldable pub gnss_interface : String → Handler → String
unfolding gnss_interface_loop
gnss_interface cfg h = gnss_interface_loop (data_of cfg h)

-- The loop of `updateGMState` that reads the states; the last entry of a process wins.
unfoldable pub read_states : Inputs → List Data → Inputs
read_states i [] = i
read_states i (d ∷ ds) =
    read_states
      (if source_eq d.process_name dpll
        then record i { dpll_state = d.state }
        else if source_eq d.process_name gnss
        then record i { gnss_state = d.state }
        else if source_eq d.process_name ts2phc
        then record i { ts2phc_state = d.state }
        else i)
      ds

-- What `updateGMState` starts from.
abbrev pub inputs_start : Bool → Handler → Inputs
inputs_start src_lost h = record {
  dpll_state = not_set;
  gnss_state = freerun;
  ts2phc_state = freerun;
  src_lost = src_lost;
  out_of_spec = h.out_of_spec;
  frequency_traceable = h.frequency_traceable;
}

-- The entry of `gmSyncState`, made if there is none, with the source and the interface of now.
unfoldable pub gm_entry : Bool → String → Option GmSync → GmSync
gm_entry src_lost iface (some g) = record g { source_lost = src_lost; gm_iface = iface }
gm_entry src_lost iface none = record {
  state = freerun;
  clock_class = class_uninitialized;
  source_lost = src_lost;
  gm_log = no_line;
  last_logged_time = 0;
  gm_iface = iface;
  clock_accuracy = accuracy_unknown;
}

-- The branch of `updateGMState` for a profile without data: what is stored and returned.
unfoldable pub gm_without_data : ℕ → String → GmSync → GmSync
gm_without_data now cfg g = record g {
  state = freerun;
  clock_class = class_freerun;
  clock_accuracy = accuracy_unknown;
  last_logged_time = now;
  gm_log = gm_line now cfg g.gm_iface freerun;
}

-- The end of `updateGMState`: the entry that is stored, and the copy that is returned, which has
-- a log line once a second.
unfoldable pub gm_report : ℕ → String → GmSync → GmSync × GmSync
gm_report now cfg g =
    let line = gm_line now cfg g.gm_iface g.state in
    if g.last_logged_time == now
    then (g, record g { gm_log = no_line; last_logged_time = 0 })
    else (
      record g { gm_log = line; last_logged_time = now },
      record g { gm_log = line; last_logged_time = 0 },
    )

-- The zero value of `grandMasterSyncState` with an interface.
abbrev pub blank_gm : String → GmSync
blank_gm iface = record {
  state = no_state;
  clock_class = 0;
  source_lost = false;
  gm_log = no_line;
  last_logged_time = 0;
  gm_iface = iface;
  clock_accuracy = 0;
}

-- `updateGMState` once the interface is known.
unfoldable pub gm_update : ℕ → String → GmSync → Inputs → Option (List Data) → GmSync × GmSync
gm_update now cfg g i none = (gm_without_data now cfg g, gm_without_data now cfg g)
gm_update now cfg g i (some ds) = gm_report now cfg (gm_decide (read_states i ds) g)

-- `updateGMState`
unfoldable pub update_gm_state : ℕ → String → Handler → Handler × GmSync
update_gm_state now cfg h =
    let src_lost = is_source_lost cfg h in
    let iface = gnss_interface cfg h in
    let entry = gm_entry src_lost iface (lookup cfg h.gm_sync) in
    let updated = gm_update now cfg entry (inputs_start src_lost h) (lookup cfg h.profiles) in
    if str_eq iface gm_interface_unknown
    then (h, blank_gm iface)
    else (record h { gm_sync = insert cfg updated.0 h.gm_sync }, updated.1)

-- What `getGMState` returns for the entry of a profile.
abbrev pub gm_or_blank : Option GmSync → GmSync
gm_or_blank (some g) = g
gm_or_blank none = record (blank_gm "") { state = not_set }

-- `getGMState`
unfoldable pub get_gm_state : String → Handler → GmSync
get_gm_state cfg h = gm_or_blank (lookup cfg h.gm_sync)

abbrev pub class_or_uninitialized : Option GmSync → ℕ
class_or_uninitialized (some g) = g.clock_class
class_or_uninitialized none = class_uninitialized

-- `getGMClockClass`
unfoldable pub get_gm_clock_class : String → Handler → ℕ
get_gm_clock_class cfg h = class_or_uninitialized (lookup cfg h.gm_sync)

abbrev pub state_or_unknown : Option Data → PtpState
state_or_unknown (some d) = d.state
state_or_unknown none = unknown

-- `GetPTPState`
unfoldable pub get_ptp_state : EventSource → String → Handler → PtpState
get_ptp_state p cfg h = state_or_unknown (find_data p (data_of cfg h))
