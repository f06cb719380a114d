-- ===== src/Daemon/SynceEvents.antt =====
-- ProcessSynceEvents (pkg/daemon/daemon.go): what a line of synce4l, parsed by ParseLog, changes in
-- the devices, and the event and the metrics that it makes.
pub mod Levels
use np_linuxptp_daemon.Base.{
  ℕ, ◌+◌, Bool, true, false, not, ◌&&◌, ◌||◌, List, [], ◌∷◌, ◌++◌, Option, none, some, String,
  str_eq, if◌then◌else◌, any, ◌==◌,
}
use np_linuxptp_daemon.Base.Int.{ℤ, pos}
use np_linuxptp_daemon.Base.Map.{Map, lookup, insert}
use np_linuxptp_daemon.Event.Types.{
  PtpState, unknown, synce, no_type, Values, Value, device, network_option, eec_state, ql, ext_ql,
  clock_quality, text, byte, int, Event,
}
use np_linuxptp_daemon.Synce.Eec.{to_ptp_state, string_to_eec_state}
use np_linuxptp_daemon.Synce.Quality.{
  QualityLevelInfo, info, Table, ql_default_ssm, ql_default_enhssm,
}
use np_linuxptp_daemon.Synce.Quality
use np_linuxptp_daemon.Synce.Relations.{Device}

-- The fields of `LogEntry` that are read.
pub record LogEntry : Type 0 where
  pub state : Option String
  pub source : Option String
  pub ql : ℕ
  pub ext_ql : ℕ

-- A device with its last states.
pub record SynceDevice : Type 0 where
  pub config : Device
  pub last_clock_state : PtpState
  pub last_ql_state : Map QualityLevelInfo

-- `UpdateSynceQLMetrics` and `UpdateSynceClockQlMetrics`: the interface, the network option, the
-- device, the type and the value.
pub data QlMetric : Type 0 where
  ql_info : String → ℕ → String → String → ℕ → QlMetric
  clock_ql : String → ℕ → String → ℕ → QlMetric

-- What a line gives: the device, the state and the values of the event, and the metrics.
pub record Given : Type 0 where
  pub to_device : SynceDevice
  pub to_state : PtpState
  pub values : Values
  pub metrics : List QlMetric

abbrev pub unchanged : SynceDevice → Given
unchanged d = record { to_device = d; to_state = unknown; values = []; metrics = [] }

-- `strings.ReplaceAll(*logEntry.State, "EEC_LOCKED_HO_ACQ", "EEC_LOCKED")`, on a state that ParseLog
-- finds.
unfoldable pub plain_state : String → String
plain_state s = if str_eq s "EEC_LOCKED_HO_ACQ" then "EEC_LOCKED" else s

-- The branch of a state.
unfoldable pub take_state : String → SynceDevice → Given
unfolding plain_state to_ptp_state string_to_eec_state
take_state s d =
    let state = to_ptp_state (string_to_eec_state (plain_state s)) in
    record {
      to_device = record d { last_clock_state = state };
      to_state = state;
      values =
          (device, text d.config.name)
          ∷ (network_option, int (pos d.config.network_option))
          ∷ (eec_state, text s)
          ∷ [];
      metrics = [];
    }

abbrev pub with_quality : String → Values → Values
with_quality q vs = if str_eq q "" then vs else vs ++ (clock_quality, text q) ∷ []

abbrev pub metrics_of : String → SynceDevice → ℕ → ℕ → List QlMetric
metrics_of src d ssm ext =
    ql_info src d.config.network_option d.config.name "SSM" ssm
    ∷ ql_info src d.config.network_option d.config.name "Extended SSM" ext
    ∷ clock_ql src d.config.network_option d.config.name (ssm + ext)
    ∷ []

module _ (t1 t2 : Table) where
  abbrev pub quality_of : SynceDevice → QualityLevelInfo → String
  quality_of d q =
      (Quality.clock_quality t1 t2
        (record { network_option = d.config.network_option; extended_tlv = d.config.extended_tlv })
        q).0

  -- The branch without extended TLVs.
  unfoldable pub take_ql : String → ℕ → SynceDevice → Given
  unfolding insert Quality.clock_quality
  take_ql src q d = record {
    to_device = record d {
      last_ql_state = insert src (info 0 q ql_default_enhssm) d.last_ql_state;
    };
    to_state = d.last_clock_state;
    values = with_quality (quality_of d (info 0 q 0)) (
        (device, text d.config.name)
        ∷ (network_option, int (pos d.config.network_option))
        ∷ (ql, byte q)
        ∷ []);
    metrics = metrics_of src d q ql_default_enhssm;
  }

  -- Both levels are known.
  unfoldable pub take_both : String → ℕ → QualityLevelInfo → SynceDevice → Given
  unfolding insert Quality.clock_quality
  take_both src ext last d = record {
    to_device = record d {
      last_ql_state = insert src (record last { extended_ssm = ext }) d.last_ql_state;
    };
    to_state = d.last_clock_state;
    values = with_quality (quality_of d (info 0 last.ssm ext)) (
        (network_option, int (pos d.config.network_option))
        ∷ (device, text d.config.name)
        ∷ (ext_ql, byte ext)
        ∷ (ql, byte last.ssm)
        ∷ []);
    metrics = metrics_of src d last.ssm ext;
  }

  -- The branch with extended TLVs, on the last levels of the source.
  unfoldable pub with_last : String → LogEntry → QualityLevelInfo → SynceDevice → Given
  unfolding take_both
  with_last src e last d =
      if not (last.ssm == ql_default_ssm) && not (e.ext_ql == ql_default_ssm)
      then take_both src e.ext_ql last d
      else if not (e.ql == ql_default_ssm)
      then unchanged
          (record d { last_ql_state = insert src (record last { ssm = e.ql }) d.last_ql_state })
      else unchanged d

  abbrev pub last_or_new : String → LogEntry → SynceDevice → Option QualityLevelInfo → Given
  last_or_new src e d (some last) = with_last src e last d
  last_or_new src e d none =
      with_last src e (info 0 e.ql e.ext_ql)
        (record d { last_ql_state = insert src (info 0 e.ql e.ext_ql) d.last_ql_state })

  -- The branches on `ExtendedTlv`.
  unfoldable pub take_levels : String → LogEntry → SynceDevice → Given
  unfolding take_ql with_last lookup
  take_levels src e d =
      if (d.config.extended_tlv == 0) && not (e.ql == ql_default_ssm)
      then take_ql src e.ql d
      else if d.config.extended_tlv == 1
      then last_or_new src e d (lookup src d.last_ql_state)
      else unchanged d

  abbrev has_iface : String → SynceDevice → Bool
  has_iface src d = any (λ i. str_eq i src) d.config.ifaces

  -- The first device of the interface is changed, if there is one.
  unfoldable pub on_device :
      String → (SynceDevice → Given) → List SynceDevice → List SynceDevice × Option Given
  on_device src f [] = ([], none)
  on_device src f (d ∷ ds) =
      let rest = on_device src f ds in
      if has_iface src d then ((f d).to_device ∷ ds, some (f d)) else (d ∷ rest.0, rest.1)

  abbrev by_entry :
      LogEntry
      → Option String
      → Option String
      → List SynceDevice
      → List SynceDevice × Option Given × String
  by_entry e state none ds = (ds, none, "")
  by_entry e (some s) (some src) ds = let r = on_device src (take_state s) ds in (r.0, r.1, src)
  by_entry e none (some src) ds =
      let r = on_device src (take_levels src e) ds in
      if not (e.ql == ql_default_ssm) || not (e.ext_ql == ql_default_ssm)
      then (r.0, r.1, src)
      else (ds, none, "")

  -- The event, where there is a value.
  abbrev event_of : ℤ → String → String → Option Given → Option Event × List QlMetric
  event_of now cfg iface none = (none, [])
  event_of now cfg iface (some g) = elim g.values [
    | [] ↦ (none, g.metrics)
    | v ∷ vs ↦ (
      some (record {
        process_name = synce;
        state = g.to_state;
        iface = iface;
        cfg_name = cfg;
        values = v ∷ vs;
        clock_type = no_type;
        time = now;
        out_of_spec = false;
        write_to_log = true;
        reset = false;
        source_lost = false;
        frequency_traceable = false;
      }),
      g.metrics,
    )
  ]

  -- `ProcessSynceEvents`; the event is lost if the channel is full.
  unfoldable pub process_synce_events :
      ℤ → String → LogEntry → List SynceDevice → List SynceDevice × Option Event × List QlMetric
  unfolding on_device take_state take_levels
  process_synce_events now cfg e ds =
      let (ds', given, iface) = by_entry e e.state e.source ds in
      let (event, metrics) = event_of now cfg iface given in (ds', event, metrics)
