-- ===== src/Event/Tests/Stores.antt =====
-- The store of pkg/event/stats.go at concrete events.
use np_linuxptp_daemon.Base.{◌≡◌, refl, true, [], ◌∷◌}
use np_linuxptp_daemon.Base.Int.{pos}
use np_linuxptp_daemon.Base.Map.{lookup}
use np_linuxptp_daemon.Event.Types.{
  locked, freerun, holdover, gnss, dpll, ts2phc, source_eq, no_line,
}
use np_linuxptp_daemon.Event.Stats.{Data, update_state, get_details}
use np_linuxptp_daemon.Event.Stats
use np_linuxptp_daemon.Event.Stats.Combined.{update_state-eq-combined}
use np_linuxptp_daemon.Event.Handler.{add_event, get_ptp_state, find_data, get_data}
use np_linuxptp_daemon.Event.Handler.Store.{IsStore, get_ptp_state-add_event}
use np_linuxptp_daemon.Event.Process.Reset.{reset_slice-eq-remove}
use np_linuxptp_daemon.Event.Process.{reset_slice}
use np_linuxptp_daemon.Event.Tests.{event_of, details_of, entry, heard, config}

abbrev mixed : Data
mixed = record {
  process_name = dpll;
  details =
      details_of dpll locked (pos 10)
      ∷ details_of dpll holdover (pos 11)
      ∷ details_of dpll freerun (pos 12)
      ∷ [];
  state = locked;
  log_data = no_line;
}

update_state-eq-combined_example : (update_state mixed).state ≡ holdover
update_state-eq-combined_example = update_state-eq-combined mixed

pub heard-IsStore : IsStore (entry gnss locked ∷ entry dpll locked ∷ entry ts2phc locked ∷ [])
unfolding find_data source_eq get_details
heard-IsStore =
    (refl, ((refl, tt), refl), (refl, ((refl, tt), refl), (refl, ((refl, tt), refl), tt)))

get_ptp_state-add_event_example :
    get_ptp_state gnss config (add_event true 12 (event_of gnss freerun (pos 11)) heard).0 ≡ freerun
unfolding lookup get_data find_data source_eq Stats.add_event Stats.add_loop
get_ptp_state-add_event_example =
    get_ptp_state-add_event true 12 (event_of gnss freerun (pos 11)) heard gnss config heard-IsStore

reset_slice-eq-remove_example :
    reset_slice dpll (entry gnss locked ∷ entry dpll locked ∷ entry ts2phc locked ∷ [])
    ≡ entry gnss locked ∷ entry ts2phc locked ∷ []
unfolding find_data source_eq
reset_slice-eq-remove_example =
    reset_slice-eq-remove dpll (entry gnss locked ∷ entry dpll locked ∷ entry ts2phc locked ∷ [])
      (refl, (refl, (refl, tt)))
