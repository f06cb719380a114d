-- ===== src/Daemon/Gnss.antt =====
-- MonitorGNSSEventsWithUblox and isOffsetInRange (pkg/daemon/gpsd.go): what one tick of the monitor
-- reads from the receiver, and the GNSS state that it reports. The texts that UbloxPollPull returns
-- are an argument, in their order.
pub mod State
pub mod Silence
use np_linuxptp_daemon.Base.{
  ℕ, suc, ◌+◌, ◌≡◌, refl, Bool, true, false, not, ◌&&◌, List, [], ◌∷◌, ◌++◌, Option, none, some,
  String, if◌then◌else◌, ltb, leb, length, ◌==◌,
}
use np_linuxptp_daemon.Base.Int.{ℤ, pos, leb_ℤ}
use np_linuxptp_daemon.Strings.{Bytes, codes, contains}
use np_linuxptp_daemon.Event.Types.{
  PtpState, no_state, freerun, locked, gnss, Event, offset, gps_status, int64,
}
use np_linuxptp_daemon.Dpll.Subscriptions.{ProcessConfig}
use np_linuxptp_daemon.Leap.Indication.{TimeLs}
use np_linuxptp_daemon.Receiver.Report.{
  extract_offset, extract_nav_status, extract_leap_sec, no_leaps,
}

-- The fields of `GPSD` that the monitor uses.
pub record Gpsd : Type 0 where
  pub config : ProcessConfig
  pub gm_interface : String
  pub state : PtpState
  pub offset : ℤ
  pub source_lost : Bool

-- What the next text is taken for: any message, the line of an offset or of a status, or one more
-- line of leap seconds behind those read.
pub data Mode : Type 0 where
  any_message offset_line status_line : Mode
  leap_lines : List Bytes → Mode

-- The variables of the monitor. `resets` counts the calls of UbloxPollReset, and `ended` says that
-- the loop of the tick was left.
pub record Scan : Type 0 where
  pub n_status : ℤ
  pub n_offset : ℤ
  pub missed_tickers : ℕ
  pub empty_count : ℕ
  pub time_ls : Option TimeLs
  pub resets : ℕ
  pub mode : Mode
  pub ended : Bool

-- The variables before the first tick.
abbrev pub first_scan : Scan
first_scan = record {
  n_status = pos 0;
  n_offset = pos 99999999;
  missed_tickers = 0;
  empty_count = 0;
  time_ls = none;
  resets = 0;
  mode = any_message;
  ended = false;
}

-- The start of a tick.
unfoldable pub start_tick : Scan → Scan
start_tick s = record s { empty_count = 0; time_ls = none; ended = false }

-- A message was read: both counters start again.
abbrev heard : Scan → Scan
heard s = record s { empty_count = 0; missed_tickers = 0; mode = any_message }

abbrev reset_if_missed : Scan → Scan
reset_if_missed s =
    if ltb 3 s.missed_tickers then record s { resets = suc s.resets; missed_tickers = 0 } else s

-- The test at the end of the loop.
unfoldable pub end_test : Scan → Scan
end_test s =
    if leb 10 s.empty_count
    then reset_if_missed (record s { missed_tickers = suc s.missed_tickers; ended = true })
    else s

-- The tests on a text that is not the line of a message.
unfoldable pub read_any : Bytes → Scan → Scan
unfolding contains end_test
read_any output s =
    if contains output (codes "UBX-NAV-CLOCK")
    then record s { mode = offset_line }
    else if contains output (codes "UBX-NAV-STATUS")
    then record s { mode = status_line }
    else if contains output (codes "UBX-NAV-TIMELS")
    then record s { mode = leap_lines [] }
    else if length output == 0
    then end_test (record s { empty_count = suc s.empty_count })
    else end_test s

abbrev with_offset : Scan → Option ℤ → Option Scan
with_offset s none = none
with_offset s (some z) = some (heard (record s { n_offset = z }))

abbrev with_status : Scan → Option ℤ → Option Scan
with_status s none = none
with_status s (some z) = some (heard (record s { n_status = z }))

abbrev with_leaps : Scan → Option TimeLs → Option Scan
with_leaps s none = none
with_leaps s (some d) = some (heard (record s { time_ls = some d }))

-- The state of the monitor, with its report as an event; the report is lost if the channel is full.
unfoldable pub gnss_event : ℤ → Scan → Gpsd → Event
gnss_event now s g = record {
  process_name = gnss;
  state = g.state;
  iface = g.gm_interface;
  cfg_name = g.config.cfg_name;
  values = (gps_status, int64 s.n_status) ∷ (offset, int64 g.offset) ∷ [];
  clock_type = g.config.clock_type;
  time = now;
  out_of_spec = false;
  write_to_log = true;
  reset = false;
  source_lost = g.source_lost;
  frequency_traceable = false;
}

-- `isOffsetInRange`
unfoldable pub is_offset_in_range : Gpsd → Bool
is_offset_in_range g =
    leb_ℤ g.offset g.config.threshold_max && leb_ℤ g.config.threshold_min g.offset

-- The assignments to the offset, the state and the loss of the source.
unfoldable pub gnss_state : Scan → Gpsd → Gpsd
unfolding is_offset_in_range
gnss_state s g =
    let read = record g { offset = s.n_offset; source_lost = false } in
    if leb_ℤ (pos 3) s.n_status
    then (if not (is_offset_in_range read)
        then record read { state = freerun }
        else record read { state = locked })
    else record read { state = freerun; source_lost = true }

-- The event of `doneFn`.
unfoldable pub gnss_terminated : ℤ → Gpsd → Event
gnss_terminated now g = record {
  process_name = gnss;
  state = no_state;
  iface = "";
  cfg_name = g.config.cfg_name;
  values = [];
  clock_type = g.config.clock_type;
  time = now;
  out_of_spec = false;
  write_to_log = false;
  reset = true;
  source_lost = false;
  frequency_traceable = false;
}

module _ (base0_value : Bytes → ℕ) where
  -- One text of the receiver; `none` is the panic of a parser.
  unfoldable pub read_text : Bytes → Scan → Option Scan
  unfolding read_any
  read_text output s = elim s.mode [
    | any_message ↦ some (read_any output s)
    | offset_line ↦ with_offset s (extract_offset output)
    | status_line ↦ with_status s (extract_nav_status output)
    | leap_lines lines ↦
        (if leb 3 (length lines)
          then with_leaps s (extract_leap_sec base0_value (lines ++ output ∷ []) no_leaps)
          else some (record s { mode = leap_lines (lines ++ output ∷ []) }))
  ]

  -- The loop of one tick, over the texts that it pulls.
  unfoldable pub read_texts : List Bytes → Scan → Option Scan
  unfolding read_text
  read_texts [] s = some s
  read_texts (output ∷ outputs) s = elim s.ended [
    | true ↦ some s
    | false ↦ elim (read_text output s) [ none ↦ none | some s' ↦ read_texts outputs s' ]
  ]

  abbrev report_if : ℤ → Gpsd → Option Scan → Option (Gpsd × Scan × Event)
  report_if now g none = none
  report_if now g (some s) = some (gnss_state s g, s, gnss_event now s (gnss_state s g))

  -- `case <-ticker.C`
  unfoldable pub tick : ℤ → List Bytes → Gpsd × Scan → Option (Gpsd × Scan × Event)
  unfolding read_texts gnss_state gnss_event
  tick now outputs (g, s) = report_if now g (read_texts outputs (start_tick s))

  abbrev next_ticks :
      (Gpsd × Scan → Option (Gpsd × Scan)) → Option (Gpsd × Scan × Event) → Option (Gpsd × Scan)
  next_ticks more none = none
  next_ticks more (some (g, s, e)) = more (g, s)

  -- The ticks of a monitor, each with its time and its texts.
  unfoldable pub ticks : List (ℤ × List Bytes) → Gpsd × Scan → Option (Gpsd × Scan)
  unfolding tick
  ticks [] gs = some gs
  ticks ((now, outputs) ∷ rest) gs = next_ticks (ticks rest) (tick now outputs gs)
