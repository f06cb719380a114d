-- ===== src/Receiver/Tests.antt =====
-- The receiver of pkg/ublox/ublox.go at concrete reports and steps.
use np_linuxptp_daemon.Base.{ℕ, ◌≡◌, refl, true, false, List, [], ◌∷◌, none, some, arith}
use np_linuxptp_daemon.Base.Int.{pos, negsuc}
use np_linuxptp_daemon.Strings.{Bytes, codes, bytes_eq, is_space}
use np_linuxptp_daemon.Strings.Fields.{test-IsWord}
use np_linuxptp_daemon.Strings.Number.{format_nat, format_int}
use np_linuxptp_daemon.Leap.Indication.{TimeLs}
use np_linuxptp_daemon.Receiver.Poll.{Ublox, fresh, dead, PollStep, pull, push, init, stop}
use np_linuxptp_daemon.Receiver.Poll.Queue.{Queue, queue_steps}
use np_linuxptp_daemon.Receiver.Report.{no_leaps, entry_of, extract_leap_sec}
use np_linuxptp_daemon.Receiver.Report.Message.{Frame, leap_report}
use np_linuxptp_daemon.Receiver.Report.Leaps.{extract_leap_sec-leap_report}

abbrev ublox : Ublox
ublox = record { buffer = []; bufferlen = 0; status = fresh; process = false }

abbrev queue : Queue
queue = record { lines = []; status = fresh; process = false }

abbrev run : List PollStep
run = init true ∷ push (some (codes "UBX-NAV-CLOCK")) ∷ pull ∷ pull ∷ push none ∷ []

run_texts :
    queue_steps run queue
    ≡ some (codes "UBX-NAV-CLOCK" ∷ [] ∷ [], record { lines = []; status = dead; process = true })
unfolding queue_steps
run_texts = refl

stop_first : queue_steps (stop ∷ []) queue ≡ none
unfolding queue_steps
stop_first = refl

abbrev leaps : TimeLs
leaps = record {
  src_of_curr_ls = 2;
  curr_ls = pos 18;
  src_of_ls_change = 2;
  ls_change = negsuc 0;
  time_to_ls_event = pos 71376;
  date_of_ls_gps_wn = 2441;
  date_of_ls_gps_dn = 7;
  valid = 3;
}

-- The reader of numbers with a prefix, for the texts that stand here.
abbrev base0 : Bytes → ℕ
base0 s = 3

abbrev frame : Frame
frame = record { itow = 376008000; version = 0; reserved1 = (0, 0, 0); reserved2 = (0, 0, 0) }

extract_leap_sec-leap_report_example :
    extract_leap_sec base0 (leap_report leaps frame (codes "x3")) no_leaps ≡ some leaps
unfolding is_space entry_of bytes_eq
extract_leap_sec-leap_report_example =
    extract_leap_sec-leap_report base0 leaps frame (codes "x3")
      (record {
        src_of_curr_ls = omega arith;
        curr_ls = omega arith;
        src_of_ls_change = omega arith;
        ls_change = omega arith;
        time_to_ls_event = omega arith;
        date_of_ls_gps_wn = omega arith;
        date_of_ls_gps_dn = omega arith;
      })
      (test-IsWord (codes "x3") (λ h. cc) refl) refl refl

report_lines :
    leap_report leaps frame (codes "x3")
    ≡ codes "iTOW 376008000 version 0 reserved2 0 0 0 srcOfCurrLs 2"
      ∷ codes "currLs 18 srcOfLsChange 2 lsChange -1 timeToLsEvent 71376"
      ∷ codes "dateOfLsGpsWn 2441 dateOfLsGpsDn 7 reserved2 0 0 0"
      ∷ codes "valid x3"
      ∷ []
unfolding leap_report format_nat format_int
report_lines = refl
