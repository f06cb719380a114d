-- ===== src/Daemon/Tests/Processes.antt =====
-- The theorems on the processes of pkg/daemon at concrete inputs: cmdRun and cmdStop, the reports of
-- the clock, the fail-over, and the GNSS monitor.
use np_linuxptp_daemon.Strings.{bytes_eq}
use np_linuxptp_daemon.Base.{◌≡◌, refl, ◌≢◌, ◌⊎◌, inl, true, false, [], ◌∷◌, ◌==◌, arith}
use np_linuxptp_daemon.Base.Int.{pos, negsuc}
use np_linuxptp_daemon.Strings.{codes}
use np_linuxptp_daemon.Event.Types.{freerun, locked, gm, gnss}
use np_linuxptp_daemon.Daemon.Command.{
  System, start, alive, gone, reading, waiting, reaped, starting, delaying, leaving, finished,
  refused, checks, starts, exits, reaps, leaves, marks, signals, signal_fails, looks, logs, refuses,
  recreating, unstarted, meets, Reach, here, next,
}
use np_linuxptp_daemon.Daemon.Command.Returns.{Reach-Returned, Reach-refused}
use np_linuxptp_daemon.Daemon.Ts2phc.{
  ClockProcess, Extracted, answers, fails, class_change, class_changes,
}
use np_linuxptp_daemon.Daemon.Ts2phc.Laws.{class_changes-eq-changed}
use np_linuxptp_daemon.Daemon.Failover.{announce_ha_fail_over}
use np_linuxptp_daemon.Daemon.Output.{
  Reader, read_to_socket, remove_message_suffix, Scanned, ends, breaks, replace_clock_id,
  config_of_tag,
}
use np_linuxptp_daemon.Daemon.Output.Order.{seen, each_scanned, seen-read_to_socket}
use np_linuxptp_daemon.Daemon.SynceEvents.{SynceDevice, take_levels, metrics_of}
use np_linuxptp_daemon.Daemon.SynceEvents.Levels.{
  ql_line, ext_ql_line, take_levels_twice, both_values,
}
use np_linuxptp_daemon.Daemon.Gnss.{Gpsd, gnss_state}
use np_linuxptp_daemon.Daemon.Gnss.State.{IsDerived, gnss_state-IsDerived}
use np_linuxptp_daemon.Daemon.Gnss.Silence.{calm}

abbrev process : ClockProcess
process = record {
  name = "ptp4l";
  config_name = "ptp4l.0.config";
  ifaces = [];
  clock_type = gm;
  threshold = record { holdover_timeout = pos 5; max_offset = pos 100; min_offset = negsuc 99 };
  parent_clock_class = 248;
  pmc_check = false;
}

abbrev far_off : Extracted
far_off = record {
  source = "master";
  ptp_offset = pos 5000;
  clock_state = "LOCKED";
  iface = "ens1fx";
  iface_name = "ens1f0";
}

class_changes-eq-changed_example :
    class_changes ◌==◌ (answers 248 ∷ answers 6 ∷ fails ∷ answers 6 ∷ answers 7 ∷ []) process
    ≡ class_change "ptp4l" "ptp4l.0.config" 6 ∷ class_change "ptp4l" "ptp4l.0.config" 7 ∷ []
class_changes-eq-changed_example =
    class_changes-eq-changed ◌==◌ (answers 248 ∷ answers 6 ∷ fails ∷ answers 6 ∷ answers 7 ∷ [])
      process

announce_run :
    announce_ha_fail_over
      (codes "selecting ens2f0 as out-of-domain source clock")
      ((codes "p1", codes "ens1f0" ∷ []) ∷ (codes "p2", codes "ens2f0" ∷ []) ∷ [])
    ≡ (codes "p2", 1) ∷ (codes "p1", 0) ∷ []
unfolding announce_ha_fail_over bytes_eq
announce_run = refl

abbrev gpsd : Gpsd
gpsd = record {
  config = record {
    has_channel = true;
    cfg_name = "ts2phc.0.config";
    clock_type = gm;
    threshold_max = pos 100;
    threshold_min = negsuc 99;
  };
  gm_interface = "ens1f0";
  state = freerun;
  offset = pos 0;
  source_lost = true;
}

gnss_state-IsDerived_example :
    IsDerived (pos 3) (pos 5) (gnss_state (calm (pos 3) (pos 5) 0 0) gpsd)
gnss_state-IsDerived_example = gnss_state-IsDerived (calm (pos 3) (pos 5) 0 0) gpsd

-- The states after a stop that was answered, and after one whose signal came too late.
abbrev answered : System
answered = record {
  run = gone;
  child = reaped;
  stopped = true;
  stop = finished;
  signalled = true;
  config_file = false;
}

abbrev late : System
late = record start { run = delaying; child = reaped; stopped = true; stop = refused }

start-answered : Reach start answered
start-answered = next marked_run (meets refl refl)
  where
    started : Reach start (record start { run = reading; child = alive })
    started = next (next here (checks refl)) (starts refl)

    marked_run : Reach start (record answered { run = leaving; stop = waiting })
    marked_run =
        next
          (next
            (next
              (next (next (next (next started (marks refl)) (looks refl refl)) (logs refl refl))
                (signals refl refl (λ e. absurd (ground (arith, e)))))
              (exits refl))
            (reaps refl refl))
          (leaves refl refl)

start-late : Reach start late
start-late =
    let over =
      next (next (next (next here (checks refl)) (starts refl)) (exits refl)) (reaps refl refl) in
    let seen_process = next (next (next over (marks refl)) (looks refl refl)) (logs refl refl) in
    next (next seen_process (signal_fails refl refl)) (refuses refl refl)

Reach-Returned_example :
    (finished ≡ finished) × ((reaped ≡ reaped) ⊎ (reaped ≡ unstarted)) × (gone ≢ starting)
Reach-Returned_example = Reach-Returned {s = answered} {t = answered} start-answered (inl refl) here

Reach-refused_example :
    (delaying ≢ gone)
    × (refused ≡ refused)
    × (true ≡ true)
    × ((delaying ≡ delaying)
        ⊎ ((delaying ≡ recreating) ⊎ ((delaying ≡ leaving) ⊎ (reaped ≡ unstarted))))
Reach-refused_example = Reach-refused {s = late} {t = late} start-late refl here

abbrev reader : Reader
reader = record {
  name = codes "ts2phc";
  message_tag = codes "[ts2phc.0.config:{level}]";
  ha_profiles = 0;
  pmc_check = true;
  ifaces =
      record { name = codes "ens1f0"; is_master = false; source = gnss; phc_id = codes "/dev/ptp4" }
      ∷ [];
  dep_processes = [];
}

-- The third line is lost with the connection.
abbrev scanned : Scanned
scanned =
    breaks (codes "dev/ptp4 offset -1" ∷ codes "a" ∷ []) (codes "[ts2phc.0.config:6] b")
      (ends (codes "c" ∷ []))

seen-read_to_socket_example :
    seen (read_to_socket (λ l. false) reader scanned)
    ≡ each_scanned reader.name reader.ifaces scanned
seen-read_to_socket_example = seen-read_to_socket (λ l. false) scanned reader

remove_message_suffix_run :
    remove_message_suffix
      (codes "ptp4l[1.6]: [phc2sys.1.config:{level}] master [a.b.config:7:x] d.config:")
    ≡ codes "ptp4l[1.6]: [phc2sys.1.config] master [a.b.config] d.config:"
unfolding remove_message_suffix
remove_message_suffix_run = refl

replace_clock_id_run :
    replace_clock_id reader.name reader.ifaces (codes "ts2phc /dev/ptp4 offset -1 s2")
    ≡ codes "ts2phc ens1f0 offset -1 s2"
unfolding replace_clock_id bytes_eq
replace_clock_id_run = refl

config_of_tag_run : config_of_tag reader.message_tag ≡ codes "ts2phc.0.config"
unfolding config_of_tag
config_of_tag_run = refl

abbrev sync_device : SynceDevice
sync_device = record {
  config = record {
    name = "synce1";
    ifaces = "ens7f0" ∷ [];
    clock_id = "";
    network_option = 1;
    extended_tlv = 1;
    external_source = "";
  };
  last_clock_state = locked;
  last_ql_state = [];
}

take_levels_twice_example :
    let first = take_levels [] [] "ens7f0" (ql_line "ens7f0" 2) sync_device in
    let second = take_levels [] [] "ens7f0" (ext_ql_line "ens7f0" 32) first.to_device in
    (first.values ≡ [])
    × (first.metrics ≡ [])
    × (second.values ≡ both_values [] [] sync_device 2 32)
    × (second.metrics ≡ metrics_of "ens7f0" sync_device 2 32)
    × (second.to_state ≡ locked)
take_levels_twice_example = take_levels_twice [] [] "ens7f0" 2 32 sync_device refl refl refl
