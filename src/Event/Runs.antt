-- ===== src/Event/Runs.antt =====
-- The event handler from its start (Init of pkg/event/event.go) over any number of rounds, and what
-- the end of a DPLL (pkg/dpll/dpll.go) leaves in it.
use np_linuxptp_daemon.Base.{ℕ, ◌≡◌, refl, Bool, false, List, [], ◌∷◌, none, arith, if◌then◌else◌}
use np_linuxptp_daemon.Base.Int.{ℤ}
use np_linuxptp_daemon.Base.Map.{lookup, str_eq_refl}
use np_linuxptp_daemon.Event.Types.{
  EventSource, source_eq, source_eq_iff, Event, unknown, dpll, ts2phc,
}
use np_linuxptp_daemon.Event.Stats.{Data}
use np_linuxptp_daemon.Event.Grandmaster.{class_uninitialized}
use np_linuxptp_daemon.Event.Handler.{Handler, data_of, find_data, get_ptp_state}
use np_linuxptp_daemon.Event.Handler.Store.{IsStore}
use np_linuxptp_daemon.Event.Process.{process_event}
use np_linuxptp_daemon.Event.Process.Reset.{remove}
use np_linuxptp_daemon.Event.Process.Step.{
  IsOrdered, process_event-IsOrdered, data_of-process_reset,
}
use np_linuxptp_daemon.Dpll.Config.{Dpll, termination_event}

-- `Init`: whether the states go to the socket.
unfoldable pub init_handler : Bool → Handler
init_handler stdout_to_socket = record {
  profiles = [];
  clock_class = class_uninitialized;
  clock_accuracy = 0;
  gm_sync = [];
  out_of_spec = false;
  frequency_traceable = false;
  stdout_to_socket = stdout_to_socket;
}

-- A run: the events in turn, each with the time and whether there are subscribers.
abbrev pub run : (ℤ → ℕ) → List (Bool × ℕ × Event) → Handler → Handler
run f [] h = h
run f ((subscribed, now, e) ∷ es) h = run f es (process_event f subscribed now e h).0

run-keeps :
    (accuracy_from_offset : ℤ → ℕ) (es : List (Bool × ℕ × Event)) (h : Handler)
    → IsOrdered h
    → IsOrdered (run accuracy_from_offset es h)
run-keeps f [] h s = s
run-keeps f ((subscribed, now, e) ∷ es) h s =
    run-keeps f es (process_event f subscribed now e h).0
      (process_event-IsOrdered f subscribed now e h s)

-- From the handler that Init makes, any run of events leaves every profile in order: one entry for
-- each process, one for each of its interfaces, and the state of a process that of its interfaces
-- together.
pub run-IsOrdered :
    (accuracy_from_offset : ℤ → ℕ) (stdout_to_socket : Bool) (es : List (Bool × ℕ × Event))
    → IsOrdered (run accuracy_from_offset es (init_handler stdout_to_socket))
unfolding init_handler lookup
run-IsOrdered f stdout_to_socket es = run-keeps f es (init_handler stdout_to_socket) (λ cfg. tt)

find_data-remove_self :
    (p q : EventSource) (ds : List Data)
    → IsStore ds
    → find_data q (remove p ds) ≡ (if source_eq p q then none else find_data q ds)
unfolding find_data
find_data-remove_self p q [] s = ground arith
find_data-remove_self p q (d ∷ ds) s = ground (
  arith,
  find_data-remove_self p q ds s.2,
  source_eq_iff d.process_name p,
  source_eq_iff p q,
  source_eq_iff d.process_name q,
)

dpll-ts2phc_ne : source_eq dpll ts2phc ≡ false
unfolding source_eq
dpll-ts2phc_ne = refl

-- When a DPLL ends, the handler forgets what the DPLLs of its profile reported, so that their state
-- is unknown; the state of every other process of the profile stays.
pub get_ptp_state-termination_event :
    (accuracy_from_offset : ℤ → ℕ) (subscribed : Bool) (now : ℕ) (t : ℤ) (d : Dpll) (h : Handler)
    (q : EventSource)
    → IsOrdered h
    → get_ptp_state q d.cfg_name
        (process_event accuracy_from_offset subscribed now (termination_event t d) h).0
      ≡ (if source_eq dpll q then unknown else get_ptp_state q d.cfg_name h)
unfolding process_event termination_event get_ptp_state
get_ptp_state-termination_event f subscribed now t d h q s =
    let ended = data_of-process_reset (termination_event t d) h d.cfg_name s in
    rw
      (
        ended,
        str_eq_refl d.cfg_name,
        dpll-ts2phc_ne,
        find_data-remove_self dpll q (data_of d.cfg_name h) (s d.cfg_name),
      )
      (ground arith)
