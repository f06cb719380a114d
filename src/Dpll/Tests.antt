-- ===== src/Dpll/Tests.antt =====
-- The theorems on pkg/dpll/dpll.go at a concrete DPLL.
mod Monitoring
mod Replies
use np_linuxptp_daemon.Base.{any, Bool, ◌≡◌, ◌≢◌, ◌⊎◌, refl, true, false, [], ◌∷◌, arith}
use np_linuxptp_daemon.Base.Int.{ℤ, pos, negsuc}
use np_linuxptp_daemon.Event.Types.{locked, freerun, holdover, gnss, gm, source_eq}
use np_linuxptp_daemon.Dpll.Config.{
  Dpll, faulty_phase_offset, quality, worse_state, status_of, is_offset_in_range, start_holdover,
  send, dpll_event, send_event, starts,
}
use np_linuxptp_daemon.Dpll.Decision.{
  decide, state_decision, decide_by, after_decision, decide_acquired,
}
use np_linuxptp_daemon.Dpll.Decision.Laws.{
  CanLock, decide-locked, decide_locked_lem, decide_out_of_range,
}
use np_linuxptp_daemon.Dpll.Holdover.{holdover_timeout, holdover_end}
use np_linuxptp_daemon.Dpll.Holdover.Safety.{Minds, state_decision-Minds, timeout_leaves_holdover}
use np_linuxptp_daemon.Dpll.Netlink.{
  DeviceReply, PinReply, refuses, phase_offset_pin, nl_update_state, nl_update_state_foreign,
}
use np_linuxptp_daemon.Dpll.Depending.{Depending, update_current, update_current-low}

-- A DPLL of a grandmaster that follows GNSS, by its lock status and whether the source is lost.
abbrev pub unit : ℤ → Bool → Dpll
unit status lost = record {
  max_in_spec_offset = 1500;
  iface = "ens1f0";
  in_spec = true;
  frequency_traceable = false;
  state = locked;
  on_holdover = false;
  source_lost = lost;
  has_channel = true;
  cfg_name = "ts2phc.0.config";
  clock_type = gm;
  threshold_max = pos 100;
  threshold_min = negsuc 99;
  depends_on = gnss ∷ [];
  phase_status = status;
  frequency_status = status;
  phase_offset = pos 5;
  clock_id = 77;
  is_monitoring = true;
  pin_filter = ("boardLabel", "GNSS-1PPS") ∷ [];
}

decide_out_of_range_run :
    decide (pos 10) gnss (record (unit (pos 3) false) { phase_offset = pos 500 }) ≡ (
      record (unit (pos 3) false) { phase_offset = pos 500 },
      send (dpll_event (pos 10) (record (unit (pos 3) false) { phase_offset = pos 500 })) ∷ [],
    )
unfolding status_of worse_state quality source_eq is_offset_in_range send_event
decide_out_of_range_run =
    decide_out_of_range (pos 10) gnss (record (unit (pos 3) false) { phase_offset = pos 500 }) refl
      refl refl refl refl

-- A holdover that starts.
abbrev held : Dpll
held = record (unit (pos 4) true) { on_holdover = true; state = holdover }

-- The DPLL as the decision finds it.
abbrev acquired : Dpll
acquired = record (unit (pos 2) false) {
  phase_status = pos 4;
  frequency_status = pos 4;
  phase_offset = pos 5;
  source_lost = true;
}

state_decision-Minds_example : Minds acquired (held, start_holdover ∷ [])
unfolding status_of worse_state quality source_eq is_offset_in_range send_event decide
    state_decision decide_by after_decision decide_acquired
state_decision-Minds_example =
    state_decision-Minds (pos 10) acquired {r = (held, start_holdover ∷ [])} refl

-- A holdover whose time is over while the DPLL has the holdover status still.
abbrev over : Dpll
over = record held {
  on_holdover = false;
  in_spec = false;
  state = freerun;
  phase_offset = faulty_phase_offset;
}

timeout_leaves_holdover_example :
    ((decide (pos 13) gnss over).0.state ≢ holdover)
    × (any starts (decide (pos 13) gnss over).1 ≡ false)
unfolding holdover_timeout holdover_end state_decision
timeout_leaves_holdover_example =
    timeout_leaves_holdover (pos 12) (pos 13) held {r = decide (pos 13) gnss over} refl

abbrev pin : PinReply
pin = record { clock_id = 77; phase_offset = pos 9; board_label = "GNSS-1PPS"; panel_label = "" }

abbrev foreign : DeviceReply
foreign = record { clock_id = 78; lock_status = 3; type = 1 }

abbrev table : Depending
table = record { states = (gnss, locked) ∷ []; current_state = locked }

abbrev freed : Dpll
freed = record (unit (pos 2) true) { state = freerun }
