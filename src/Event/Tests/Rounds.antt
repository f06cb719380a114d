-- ===== src/Event/Tests/Rounds.antt =====
-- Rounds of ProcessEvents (pkg/event/event.go) at concrete events.
use np_linuxptp_daemon.Base.{ℕ, ◌++◌, ◌≢◌, inl, inr, true, false, [], ◌∷◌, none, str_eq, Bool-cases}
use np_linuxptp_daemon.Base.Int.{ℤ, pos}
use np_linuxptp_daemon.Base.Map.{lookup}
use np_linuxptp_daemon.Event.Types.{freerun, gnss, Event, no_line}
use np_linuxptp_daemon.Event.Grandmaster.{GmSync}
use np_linuxptp_daemon.Event.Process.{
  Output, log_if, gm_log, event_metrics, clear_nmea, class_request, process_event,
}
use np_linuxptp_daemon.Event.Process.Step.{IsOrdered, process_event-total, process_event-IsOrdered}
use np_linuxptp_daemon.Dpll.Config.{Dpll, new_dpll}
use np_linuxptp_daemon.Event.Runs.{init_handler, run, run-IsOrdered}
use np_linuxptp_daemon.Event.Tests.{event_of, heard, config, gm_locked}
use np_linuxptp_daemon.Event.Tests.Stores.{heard-IsStore}

-- An accuracy for every offset.
abbrev accuracy : ℤ → ℕ
accuracy _ = 0x25

heard-IsOrdered : IsOrdered heard
unfolding lookup
heard-IsOrdered cfg = elim (Bool-cases (str_eq config cfg)) [
  | inl same ↦ rw same heard-IsStore
  | inr other ↦ rw other tt
]

abbrev lost : Event
lost = event_of gnss freerun (pos 11)

abbrev forgotten : Event
forgotten = record lost { reset = true }

process_event-IsOrdered_example : IsOrdered (process_event accuracy true 12 lost heard).0
process_event-IsOrdered_example =
    process_event-IsOrdered accuracy true 12 lost heard heard-IsOrdered

process_event-total_example : (process_event accuracy true 12 lost heard).1 ≢ none
process_event-total_example = process_event-total accuracy true 12 lost heard

run-IsOrdered_example :
    IsOrdered (run accuracy ((true, 12, lost) ∷ (true, 13, forgotten) ∷ []) (init_handler false))
run-IsOrdered_example = run-IsOrdered accuracy false ((true, 12, lost) ∷ (true, 13, forgotten) ∷ [])

abbrev gm_lost : GmSync
gm_lost = record gm_locked { state = freerun; clock_class = 248; clock_accuracy = 0xfe }

abbrev reported : Output
reported = record {
  logs = log_if true no_line ++ gm_log gm_lost;
  metrics = event_metrics lost (clear_nmea lost.values) "ens1f0" gm_lost;
  told = true;
  request = class_request accuracy heard lost (clear_nmea lost.values) gm_lost;
}

abbrev ending : Dpll
ending = record (new_dpll 77 1500 "ens1f0" (gnss ∷ []) []) { cfg_name = config }
