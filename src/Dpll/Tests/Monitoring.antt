-- ===== src/Dpll/Tests/Monitoring.antt =====
-- The theorems on the monitoring loop of pkg/dpll/dpll.go at a concrete DPLL.
use np_linuxptp_daemon.Dpll.Decision.{state_decision}
use np_linuxptp_daemon.Dpll.Netlink.{
  device_loop, device_round, nl_update_state, pin_loop, store_status,
}
use np_linuxptp_daemon.Dpll.Monitor.{attempt, poll, set_dpll, step, update_and_decide}
use np_linuxptp_daemon.Dpll.Monitor.Notifications.{message_loop, read_message}
use np_linuxptp_daemon.Event.PubSub.{key}
use np_linuxptp_daemon.Event.Types.{source_eq}
use np_linuxptp_daemon.Dpll.Subscriptions.{depend_loop, hex_digit, hex_text, subscriber_id}
use np_linuxptp_daemon.Base.{◌≡◌, refl, ◌⊎◌, true, false, [], ◌∷◌, none, some}
use np_linuxptp_daemon.Base.Int.{pos}
use np_linuxptp_daemon.Base.Map.{lookup}
use np_linuxptp_daemon.Event.Types.{gm}
use np_linuxptp_daemon.Dpll.Netlink.{DeviceReply}
use np_linuxptp_daemon.Dpll.Subscriptions.{
  ProcessConfig, Client, monitor_process, unregister_client, lookup-unregister_client,
}
use np_linuxptp_daemon.Dpll.Monitor.{Attempt, crashed, start_monitor, round, rounds, receives, run}
use np_linuxptp_daemon.Dpll.Monitor.Notifications.{
  device_change, unhandled, read_messages, read_messages_last,
}
use np_linuxptp_daemon.Dpll.Monitor.Invariant.{IsSound, run-start_monitor-IsSound}
use np_linuxptp_daemon.Dpll.Monitor.Redial.{listening, run_redial_fails, run_redial_succeeds}
use np_linuxptp_daemon.Dpll.Tests.{unit}

abbrev client : Client
client = record { dpll = unit (pos 2) false; subscriber = []; states = []; registry = [] }

abbrev config : ProcessConfig
config = record {
  has_channel = true;
  cfg_name = "ts2phc.0.config";
  clock_type = gm;
  threshold_max = pos 100;
  threshold_min = pos 0;
}

-- A pps reply of the DPLL's clock.
abbrev reply : DeviceReply
reply = record { clock_id = 77; lock_status = 3; type = 1 }

abbrev good : Attempt
good = record { dialled = true; group_found = true; dump = some (reply ∷ []); joined = true }

abbrev no_dial : Attempt
no_dial = record good { dialled = false }

lookup-unregister_client_example :
    (lookup "monitoring_dpll-4d" (unregister_client (monitor_process config client)).registry
      ≡ none)
    × ((unregister_client (monitor_process config client)).subscriber ≡ [])
unfolding monitor_process depend_loop source_eq key subscriber_id hex_text hex_digit
lookup-unregister_client_example = lookup-unregister_client config client "monitoring_dpll-4d"

read_messages_last_example :
    read_messages (device_change (some (reply ∷ [])) ∷ unhandled ∷ [])
    ≡ read_messages (unhandled ∷ [])
unfolding read_message
read_messages_last_example =
    read_messages_last (device_change (some (reply ∷ [])) ∷ []) unhandled ((_, refl), tt)

read_messages_run :
    read_messages (device_change (some (reply ∷ [])) ∷ unhandled ∷ []) ≡ some ([], [])
unfolding read_messages message_loop read_message
read_messages_run = refl

run-start_monitor-IsSound_example :
    IsSound (run ((pos 1, rounds good false) ∷ (pos 2, receives none) ∷ []) (start_monitor client))
run-start_monitor-IsSound_example =
    run-start_monitor-IsSound client ((pos 1, rounds good false) ∷ (pos 2, receives none) ∷ [])

run_redial_fails_example :
    (run
      ((pos 2, rounds good false) ∷ (pos 3, rounds good false) ∷ [])
      (round (pos 1) no_dial false (run [] (start_monitor client))).0).listeners
    ≡ 0
unfolding run start_monitor
run_redial_fails_example =
    run_redial_fails client [] (pos 1) no_dial false
      ((pos 2, rounds good false) ∷ (pos 3, rounds good false) ∷ []) refl refl refl

run_redial_succeeds_example :
    let m =
      run
        ((pos 1, receives none) ∷ (pos 1, rounds no_dial false) ∷ (pos 1, rounds good false) ∷ [])
        (listening client) in
    (m.phase ≡ crashed) ⊎ (m ≡ listening m.client)
run_redial_succeeds_example = run_redial_succeeds (pos 1) no_dial good client refl

run_good : (run ((pos 1, rounds good false) ∷ []) (start_monitor client)).listeners ≡ 1
unfolding run step start_monitor round attempt update_and_decide nl_update_state pin_loop
    device_loop device_round store_status state_decision set_dpll poll
run_good = refl
