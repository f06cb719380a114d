-- ===== src/Event/Tests/Grandmasters.antt =====
-- The grandmaster state of pkg/event/event.go at concrete inputs.
use np_linuxptp_daemon.Base.{false, ◌≡◌, ◌≢◌, refl, true, none, arith}
use np_linuxptp_daemon.Base.Map.{lookup}
use np_linuxptp_daemon.Event.Types.{locked, freerun, source_eq, PtpState}
use np_linuxptp_daemon.Event.Grandmaster.{Inputs, gm_decide, to_locked, class_6, class_out_of_spec}
use np_linuxptp_daemon.Event.Grandmaster.Table
use np_linuxptp_daemon.Event.Grandmaster.Table.{Row, Row-gm_decide}
use np_linuxptp_daemon.Event.Grandmaster.Coherence.{IsCoherent}
use np_linuxptp_daemon.Event.Handler.{
  gnss_interface, gm_interface_unknown, read_states, update_gm_state, get_gm_state,
  get_gm_clock_class, find_data,
}
use np_linuxptp_daemon.Event.Handler.Gm.{
  gm_inputs, gm_inputs_lem, update_gm_state_lem, update_gm_state_others,
}
use np_linuxptp_daemon.Event.Tests.{heard, config, gm_locked}
use np_linuxptp_daemon.Event.Tests.Stores.{heard-IsStore}

abbrev inputs : PtpState → PtpState → PtpState → Inputs
inputs d g t = record {
  dpll_state = d;
  gnss_state = g;
  ts2phc_state = t;
  src_lost = true;
  out_of_spec = true;
  frequency_traceable = true;
}

Row-gm_decide_example :
    ((gm_decide (inputs freerun freerun freerun) gm_locked).state ≡ freerun)
    × ((gm_decide (inputs freerun freerun freerun) gm_locked).clock_class ≡ class_out_of_spec)
Row-gm_decide_example =
    Row-gm_decide (inputs freerun freerun freerun) gm_locked (Table.traceable refl refl refl)

gm_locked-IsCoherent : IsCoherent gm_locked
gm_locked-IsCoherent = ground arith

gm_inputs_lem_example : gm_inputs config heard ≡ record {
  dpll_state = locked;
  gnss_state = locked;
  ts2phc_state = locked;
  src_lost = false;
  out_of_spec = heard.out_of_spec;
  frequency_traceable = heard.frequency_traceable;
}
unfolding lookup find_data source_eq
gm_inputs_lem_example = gm_inputs_lem config heard heard-IsStore

heard-gnss_interface : gnss_interface config heard ≢ gm_interface_unknown
unfolding gnss_interface lookup source_eq
heard-gnss_interface e = cc

update_gm_state_lem_example :
    let (h, told) = update_gm_state 12 config heard in
    ((get_gm_state config h).state ≡ locked)
    × (get_gm_clock_class config h ≡ class_6)
    × (told.state ≡ locked)
    × (told.clock_class ≡ class_6)
    × (told.clock_accuracy ≡ 0x21)
unfolding lookup gm_decide read_states source_eq to_locked
update_gm_state_lem_example = update_gm_state_lem 12 config heard heard-gnss_interface

update_gm_state_others_run : lookup "other" (update_gm_state 12 config heard).0.gm_sync ≡ none
unfolding lookup
update_gm_state_others_run = update_gm_state_others 12 config "other" heard (λ e. cc)
