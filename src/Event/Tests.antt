-- ===== src/Event/Tests.antt =====
-- The theorems on pkg/event at concrete events, states and handlers.
mod Stores
mod Rounds
mod Grandmasters
mod Requests
use np_linuxptp_daemon.Base.{ℕ, true, false, [], ◌∷◌, String}
use np_linuxptp_daemon.Base.Int.{ℤ, pos}
use np_linuxptp_daemon.Event.Types.{
  PtpState, locked, freerun, holdover, EventSource, gnss, dpll, ts2phc, Event, gps_status,
  nmea_status, gm, int64, no_line,
}
use np_linuxptp_daemon.Event.Stats.{DataDetails, Data}
use np_linuxptp_daemon.Event.Grandmaster.{GmSync}
use np_linuxptp_daemon.Event.Handler.{Handler}

abbrev pub config : String
config = "ts2phc.0.config"

-- An event of a process at ens1f0.
abbrev pub event_of : EventSource → PtpState → ℤ → Event
event_of p s t = record {
  process_name = p;
  state = s;
  iface = "ens1f0";
  cfg_name = config;
  values = (gps_status, int64 (pos 3)) ∷ (nmea_status, int64 (pos 1)) ∷ [];
  clock_type = gm;
  time = t;
  out_of_spec = false;
  write_to_log = true;
  reset = false;
  source_lost = false;
  frequency_traceable = false;
}

abbrev pub details_of : EventSource → PtpState → ℤ → DataDetails
details_of p s t = record {
  iface = "ens1f0";
  state = s;
  clock_type = gm;
  time = t;
  log_data = no_line;
  signal_source = p;
  source_lost = false;
}

abbrev pub entry : EventSource → PtpState → Data
entry p s = record {
  process_name = p;
  details = details_of p s (pos 10) ∷ [];
  state = s;
  log_data = no_line;
}

-- A handler that has heard of GNSS, the DPLL and ts2phc.
abbrev pub heard : Handler
heard = record {
  profiles = (config, entry gnss locked ∷ entry dpll locked ∷ entry ts2phc locked ∷ []) ∷ [];
  clock_class = 248;
  clock_accuracy = 0xfe;
  gm_sync = [];
  out_of_spec = false;
  frequency_traceable = false;
  stdout_to_socket = false;
}

abbrev pub gm_locked : GmSync
gm_locked = record {
  state = locked;
  clock_class = 6;
  source_lost = false;
  gm_log = no_line;
  last_logged_time = 0;
  gm_iface = "ens1f0";
  clock_accuracy = 0x21;
}
