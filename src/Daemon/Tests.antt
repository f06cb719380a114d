-- ===== src/Daemon/Tests.antt =====
-- The configurations and the ports of pkg/daemon at concrete texts.
mod Processes
use np_linuxptp_daemon.Base.{
  none, if◌then◌else◌, ℕ, Bool, length, arith, map, ◌++◌, All, ◌≡◌, ◌↔◌, ◌≢◌, refl, true, false,
  List, [], ◌∷◌, Option, some,
}
use np_linuxptp_daemon.Base.Int.{pos}
use np_linuxptp_daemon.Strings.{
  Bytes, codes, bytes_eq, bytes_eq_iff, has_prefix, trim_space, trim_left, trim_right, is_space,
}
use np_linuxptp_daemon.Strings.Lines.{split}
use np_linuxptp_daemon.Strings.Dict.{Dict, put, find}
use np_linuxptp_daemon.Event.Types.{gm}
use np_linuxptp_daemon.Daemon.Config.{
  Conf, Section, scan_line, scan_lines, close_section, is_slave_option, index_byte, populated,
  finish, populate, is_empty,
}
use np_linuxptp_daemon.Daemon.Config.Laws.{has_global, populate-gm, populate-has_global}
use np_linuxptp_daemon.Daemon.Render.{
  SynceConfig, strip, extract_start, extract_section, extract_sections, extract_synce_relations,
  render_ptp4l_conf, is_port, port_name,
}
use np_linuxptp_daemon.Daemon.Render.Laws.{
  names_of, is_synce_iface, section_strip, extract_synce_relations-last, render_ptp4l_conf-ifaces,
}
use np_linuxptp_daemon.Daemon.Ports.{
  Offsets, slave, faulty, extract_ptp4l_event_state, extract_port, out_of_range, ported,
  role_change, role_gauge, faulty_offsets, freerun_gauge, mask, get_master, nameless, ptp4l_process,
  clock_real_time, get_source,
}
use np_linuxptp_daemon.Daemon.Ports.Laws.{extract_port-out_of_range, role_change-slave-faulty}
use np_linuxptp_daemon.Daemon.Offsets.{read_summary, summary_panic}
use np_linuxptp_daemon.Daemon.Offsets.Panics.{read_summary-panic}
use np_linuxptp_daemon.Daemon.Regular.{Regular, extract_regular_metrics}
use np_linuxptp_daemon.Daemon.Regular.Total.{extract_regular_metrics-total}
use np_linuxptp_daemon.Daemon.Profiles.{HaProcess, list_ha_profiles, process_of, apply_ha_profiles}
use np_linuxptp_daemon.Daemon.Profiles.Found.{is_listed, ifaces_of, find-apply_ha_profiles}
use np_linuxptp_daemon.Daemon.Monitor.{ptp4l, add_flags_for_monitor}
use np_linuxptp_daemon.Daemon.Monitor.Once.{add_flags_for_monitor_once}

-- An ordinary clock, by its configuration.
abbrev slave_config : Bytes
slave_config = codes "[ens1f0]\nmasterOnly 0\n[global]\nslaveOnly 1"

abbrev slave_conf : Conf
slave_conf = record {
  sections =
      record { section_name = codes "[ens1f0]"; options = (codes "masterOnly", codes " 0") ∷ [] }
      ∷ record { section_name = codes "[global]"; options = (codes "slaveOnly", codes " 1") ∷ [] }
      ∷ [];
  clock_type = gm;
}

slave_config-populated : populate (some slave_config) ≡ populated slave_conf
unfolding populate scan_lines scan_line finish close_section is_slave_option index_byte split
    has_prefix bytes_eq trim_space trim_left trim_right is_space put
slave_config-populated = refl

populate-gm_example : slave_conf.clock_type ≡ gm
populate-gm_example = populate-gm (some slave_config) slave_config-populated

abbrev no_offsets : Offsets
no_offsets = record { masters = []; slaves = []; sources = [] }

false-ne-true : false ≢ true
false-ne-true h = cc

abbrev config : Bytes
config = codes "ptp4l.0.config"

abbrev iface : Bytes
iface = codes "ens1f0"

abbrev fault_line : Bytes
fault_line = codes "ptp4l[1.2]: [ptp4l.0.config] port 2: SLAVE to FAULTY on FAULT_DETECTED"

iface-ne-master : iface ≢ codes "master"
unfolding bytes_eq
iface-ne-master h = false-ne-true ((bytes_eq_iff iface (codes "master")).1 h)

abbrev flagged : Option Bytes × List Section
flagged = add_flags_for_monitor ptp4l false (some (codes "-2")) slave_conf.sections

-- Two devices, each with a port.
abbrev two_devices : List Section
two_devices =
    record { section_name = codes "[<synce1>]"; options = [] }
    ∷ record { section_name = codes "[ens1f0]"; options = [] }
    ∷ record { section_name = codes "[<synce2>]"; options = [] }
    ∷ record { section_name = codes "[ens2f0]"; options = [] }
    ∷ []

two_devices-named : is_empty ((extract_sections two_devices extract_start).info.name) ≡ false
unfolding extract_sections extract_section strip has_prefix bytes_eq
two_devices-named = refl

extract_synce_relations-last_example :
    (before : List SynceConfig) × (last : SynceConfig) × (extract_synce_relations two_devices
      ≡ before ++ last ∷ [])
    × (last.ifaces ≡ names_of is_synce_iface section_strip two_devices)
extract_synce_relations-last_example = extract_synce_relations-last two_devices two_devices-named

two_devices-ports :
    names_of is_synce_iface section_strip two_devices ≡ codes "ens1f0" ∷ codes "ens2f0" ∷ []
unfolding strip has_prefix bytes_eq
two_devices-ports = refl

-- A parser of floating-point numbers, for digits without a point.
abbrev parse_digits : Bytes → ℕ × Bool
parse_digits s = (length s, true)

abbrev eleven_fields : List Bytes
eleven_fields =
    config
    ∷ codes "CLOCK_REALTIME"
    ∷ codes "rms"
    ∷ codes "31"
    ∷ codes "max"
    ∷ codes "31"
    ∷ codes "freq"
    ∷ codes "-77331"
    ∷ codes "+/-"
    ∷ codes "0"
    ∷ codes "delay"
    ∷ []

abbrev ts2phc_line : Bytes
ts2phc_line = codes "ts2phc[82674.465]: [ts2phc.0.cfg] ens2f1 master offset 0 s2 freq -0"

extract_regular_metrics-total_example :
    (r : Regular ℕ 0 parse_digits) × (p : Offsets) × (extract_regular_metrics ℕ 0 parse_digits
        (codes "ts2phc.0.cfg")
        (codes "ts2phc")
        ts2phc_line
        []
        no_offsets
      ≡ some (r, p))
extract_regular_metrics-total_example =
    extract_regular_metrics-total ℕ 0 parse_digits (codes "ts2phc.0.cfg") (codes "ts2phc")
      ts2phc_line [] no_offsets

abbrev ha_settings : Dict Bytes
ha_settings = (codes "haProfiles", codes "one, two") ∷ []

abbrev ha_processes : List HaProcess
ha_processes =
    record {
      profile = some (codes "two");
      socket_path = codes "/var/run/ptp4l.1.socket";
      ifaces = iface ∷ [];
    }
    ∷ []

find-apply_ha_profiles_example :
    find (codes "two") ((apply_ha_profiles ha_settings ha_processes (codes "phc2sys")).0) ≡ (
      if is_listed (codes "two") (list_ha_profiles ha_settings)
      then ifaces_of (process_of (codes "two") ha_processes)
      else none)
find-apply_ha_profiles_example =
    find-apply_ha_profiles ha_settings ha_processes (codes "phc2sys") (codes "two")
