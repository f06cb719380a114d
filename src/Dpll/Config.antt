-- ===== src/Dpll/Config.antt =====
-- The struct DpllConfig (pkg/dpll/dpll.go), its range tests, the worse of two lock states and the
-- event that a DPLL sends.
use np_linuxptp_daemon.Base.{
  ℕ, zero, suc, ◌-◌, Bool, true, false, not, ◌&&◌, List, [], ◌∷◌, String, if◌then◌else◌, ltb, ◌^◌,
  ◌%◌,
}
use np_linuxptp_daemon.Base.Int.{ℤ, pos, negsuc, ltb_ℤ, leb_ℤ}
use np_linuxptp_daemon.Base.Map.{Map}
use np_linuxptp_daemon.Event.Types.{
  PtpState, no_state, freerun, EventSource, dpll, ClockType, no_type, Event, offset, phase_status,
  frequency_status, pps_status, int64, int,
}

-- `FaultyPhaseOffset`
abbrev pub faulty_phase_offset : ℤ
faulty_phase_offset = pos 99999999999

-- The struct `DpllConfig` less its channels, its ticker and its netlink connection. The fields of
-- `processConfig` stand in it; `has_channel` says that its event channel is there; `pin_filter` is
-- the phase offset pin filter of the DPLL's own clock id.
pub record Dpll : Type 0 where
  pub max_in_spec_offset : ℕ
  pub iface : String
  pub in_spec : Bool
  pub frequency_traceable : Bool
  pub state : PtpState
  pub on_holdover : Bool
  pub source_lost : Bool
  pub has_channel : Bool
  pub cfg_name : String
  pub clock_type : ClockType
  pub threshold_max : ℤ
  pub threshold_min : ℤ
  pub depends_on : List EventSource
  pub phase_status : ℤ
  pub frequency_status : ℤ
  pub phase_offset : ℤ
  pub clock_id : ℕ
  pub is_monitoring : Bool
  pub pin_filter : Map String

-- The lock states -1 to 4, and any other number.
pub data Status : Type 0 where
  unlocked locked_status ho_acq in_holdover other : Status

-- The labels of the `switch` in `stateDecision`: FREERUN, INVALID and UNKNOWN share a case.
unfoldable pub status_of : ℤ → Status
status_of (negsuc zero) = unlocked
status_of (negsuc (suc n)) = other
status_of (pos zero) = unlocked
status_of (pos (suc zero)) = unlocked
status_of (pos (suc (suc zero))) = locked_status
status_of (pos (suc (suc (suc zero)))) = ho_acq
status_of (pos (suc (suc (suc (suc zero))))) = in_holdover
status_of (pos (suc (suc (suc (suc (suc n)))))) = other

-- `getStateQuality`; a key that is not in the map has quality 0.
unfoldable pub quality : ℤ → ℤ
quality (negsuc zero) = negsuc 0
quality (negsuc (suc n)) = pos 0
quality (pos zero) = pos 0
quality (pos (suc zero)) = pos 1
quality (pos (suc (suc zero))) = pos 3
quality (pos (suc (suc (suc zero)))) = pos 4
quality (pos (suc (suc (suc (suc zero))))) = pos 2
quality (pos (suc (suc (suc (suc (suc n)))))) = pos 0

-- `getWorseState`
unfoldable pub worse_state : ℤ → ℤ → ℤ
worse_state p f = if ltb_ℤ (quality p) (quality f) then p else f

-- The conversion of a uint64 to an int64.
unfoldable pub to_int64 : ℕ → ℤ
to_int64 n = let m = n % 2 ^ 64 in if ltb m (2 ^ 63) then pos m else negsuc (2 ^ 64 - 1 - m)

-- `isInSpecOffsetInRange`
unfoldable pub is_in_spec_offset_in_range : Dpll → Bool
is_in_spec_offset_in_range d = leb_ℤ d.phase_offset (to_int64 d.max_in_spec_offset)

-- `isOffsetInRange`
unfoldable pub is_offset_in_range : Dpll → Bool
is_offset_in_range d = leb_ℤ d.phase_offset d.threshold_max && leb_ℤ d.threshold_min d.phase_offset

-- The event of `sendDpllEvent`, at the time `now`.
unfoldable pub dpll_event : ℤ → Dpll → Event
dpll_event now d = record {
  process_name = dpll;
  state = d.state;
  iface = d.iface;
  cfg_name = d.cfg_name;
  values =
      (frequency_status, int64 d.frequency_status)
      ∷ (offset, int64 d.phase_offset)
      ∷ (phase_status, int64 d.phase_status)
      ∷ (pps_status, int (if d.source_lost then pos 0 else pos 1))
      ∷ [];
  clock_type = d.clock_type;
  time = now;
  out_of_spec = not d.in_spec;
  write_to_log = true;
  reset = false;
  source_lost = d.source_lost;
  frequency_traceable = d.frequency_traceable;
}

-- `NewDpll`, less the API type. A new DPLL has no event channel and no configuration yet; the
-- filter is the one of the clock id.
unfoldable pub new_dpll : ℕ → ℕ → String → List EventSource → Map String → Dpll
new_dpll clock_id max_in_spec_offset iface depends_on pin_filter = record {
  max_in_spec_offset = max_in_spec_offset;
  iface = iface;
  in_spec = false;
  frequency_traceable = false;
  state = freerun;
  on_holdover = false;
  source_lost = false;
  has_channel = false;
  cfg_name = "";
  clock_type = no_type;
  threshold_max = pos 0;
  threshold_min = pos 0;
  depends_on = depends_on;
  phase_status = pos 0;
  frequency_status = pos 0;
  phase_offset = faulty_phase_offset;
  clock_id = clock_id;
  is_monitoring = false;
  pin_filter = pin_filter;
}

-- The event of `sendDpllTerminationEvent`, at the time `now`.
unfoldable pub termination_event : ℤ → Dpll → Event
termination_event now d = record {
  process_name = dpll;
  state = no_state;
  iface = d.iface;
  cfg_name = d.cfg_name;
  values = [];
  clock_type = d.clock_type;
  time = now;
  out_of_spec = false;
  write_to_log = false;
  reset = true;
  source_lost = false;
  frequency_traceable = false;
}

-- What a DPLL does beside changing its own state: an event for the channel (lost if the channel is
-- full), a holdover started, and a holdover told to close, waiting for it to take the message or
-- only if it does so at once.
pub data Effect : Type 0 where
  send : Event → Effect
  start_holdover close_holdover try_close_holdover : Effect

-- Whether an effect starts a holdover, or closes one, waiting or not.
abbrev pub starts : Effect → Bool
starts start_holdover = true
starts _ = false

abbrev pub closes : Effect → Bool
closes close_holdover = true
closes _ = false

abbrev pub tries : Effect → Bool
tries try_close_holdover = true
tries _ = false

-- `sendDpllEvent`
unfoldable pub send_event : ℤ → Dpll → List Effect
unfolding dpll_event
send_event now d = if d.has_channel then send (dpll_event now d) ∷ [] else []
