-- ===== src/Event/Grandmaster.antt =====
-- The grandmaster state of a profile (updateGMState in pkg/event/event.go): the decision from the
-- states of the DPLL, the GNSS receiver and ts2phc.
pub mod Table
pub mod Coherence
use np_linuxptp_daemon.Base.{
  ℕ, zero, suc, ◌+◌, ◌-◌, ◌*◌, ◌≤◌, ◌<◌, ◌≡◌, refl, sym, ap, ◌∙◌, ◌≢◌, ◌↔◌, ◌⊎◌, inl, inr, Bool,
  true, false, not, ◌&&◌, ◌||◌, List, [], ◌∷◌, ◌++◌, map, Option, none, some, String, arith, str_eq,
  str_eq_iff, if◌then◌else◌, any, All, Bool-cases, Option-cases, ◌==◌, ltb, leb, length, get_elem?,
  take, drop,
}
use np_linuxptp_daemon.Event.Types.{
  PtpState, no_state, freerun, holdover, locked, unknown, not_set, LogLine,
}

-- The struct `grandMasterSyncState`.
pub record GmSync : Type 0 where
  pub state : PtpState
  pub clock_class : ℕ
  pub source_lost : Bool
  pub gm_log : LogLine
  pub last_logged_time : ℕ
  pub gm_iface : String
  pub clock_accuracy : ℕ

-- The clock classes of pkg/protocol/type.go and those of IEEE 1588 that the code uses.
abbrev pub class_uninitialized : ℕ
class_uninitialized = 0

abbrev pub class_6 : ℕ
class_6 = 6

abbrev pub class_7 : ℕ
class_7 = 7

abbrev pub class_out_of_spec : ℕ
class_out_of_spec = 140

abbrev pub class_freerun : ℕ
class_freerun = 248

abbrev pub accuracy_nanosecond_100 : ℕ
accuracy_nanosecond_100 = 0x21

abbrev pub accuracy_unknown : ℕ
accuracy_unknown = 0xfe

-- The assignments that the branches of the decision repeat.
unfoldable pub to_freerun : GmSync → GmSync
to_freerun g = record g {
  state = freerun;
  clock_class = class_freerun;
  clock_accuracy = accuracy_unknown;
}

unfoldable pub to_locked : GmSync → GmSync
to_locked g = record g {
  state = locked;
  clock_class = class_6;
  clock_accuracy = accuracy_nanosecond_100;
}

unfoldable pub to_holdover : GmSync → GmSync
to_holdover g = record g { state = holdover; clock_class = class_7 }

-- `case PTP_FREERUN` of the DPLL.
unfoldable pub dpll_freerun : Bool → Bool → GmSync → GmSync
dpll_freerun out_of_spec frequency_traceable g = record g {
  state = freerun;
  clock_class = if out_of_spec && frequency_traceable then class_out_of_spec else class_freerun;
  clock_accuracy = accuracy_unknown;
}

-- `case PTP_LOCKED, PTP_NOTSET` of the DPLL: the states of GNSS and ts2phc, and whether the
-- source is lost.
unfoldable pub dpll_locked : Bool → PtpState → PtpState → GmSync → GmSync
unfolding to_freerun to_locked to_holdover
dpll_locked src_lost locked freerun g = to_freerun g
dpll_locked src_lost locked locked g = to_locked g
dpll_locked src_lost locked holdover g = to_holdover g
dpll_locked true freerun holdover g = to_holdover g
dpll_locked false freerun freerun g = to_freerun g
dpll_locked false freerun locked g = to_freerun g
dpll_locked false freerun unknown g = to_freerun g
dpll_locked false freerun not_set g = to_freerun g
dpll_locked src_lost _ _ g = g

-- The inner `default` ("bad case"): GNSS is neither locked nor in freerun.
unfoldable pub bad_case : PtpState → GmSync → GmSync
bad_case freerun g = record g {
  state = freerun;
  clock_class = class_freerun;
  clock_accuracy = accuracy_unknown;
}
bad_case locked g = record g {
  state = locked;
  clock_class = class_7;
  clock_accuracy = accuracy_nanosecond_100;
}
bad_case s g = record g { state = s }

-- The outer `default`: the DPLL is in no state above.
unfoldable pub dpll_other : PtpState → PtpState → GmSync → GmSync
unfolding to_freerun to_locked to_holdover bad_case
dpll_other locked freerun g = to_freerun g
dpll_other locked unknown g = to_freerun g
dpll_other locked not_set g = to_freerun g
dpll_other locked locked g = to_locked g
dpll_other locked holdover g = to_holdover g
dpll_other locked no_state g = g
dpll_other freerun freerun g = to_freerun g
dpll_other freerun locked g = to_freerun g
dpll_other freerun unknown g = to_freerun g
dpll_other freerun not_set g = to_freerun g
dpll_other freerun holdover g = to_holdover g
dpll_other freerun no_state g = g
dpll_other _ ts2phc_state g = bad_case ts2phc_state g

-- The states that the decision reads.
pub record Inputs : Type 0 where
  pub dpll_state : PtpState
  pub gnss_state : PtpState
  pub ts2phc_state : PtpState
  pub src_lost : Bool
  pub out_of_spec : Bool
  pub frequency_traceable : Bool

-- The `switch dpllState`.
unfoldable pub gm_switch : PtpState → Inputs → GmSync → GmSync
unfolding dpll_freerun dpll_locked dpll_other to_holdover
gm_switch freerun i g = dpll_freerun i.out_of_spec i.frequency_traceable g
gm_switch holdover i g = to_holdover g
gm_switch locked i g = dpll_locked i.src_lost i.gnss_state i.ts2phc_state g
gm_switch not_set i g = dpll_locked i.src_lost i.gnss_state i.ts2phc_state g
gm_switch _ i g = dpll_other i.gnss_state i.ts2phc_state g

unfoldable pub gm_decide : Inputs → GmSync → GmSync
unfolding gm_switch
gm_decide i g = gm_switch i.dpll_state i g
