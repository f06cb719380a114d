-- ===== src/Leap/Window/Shifted.antt =====
-- The window of a leap event that processLeapIndication adds where no change of the leap seconds is
-- scheduled (pkg/leap/leap-file.go).
use np_linuxptp_daemon.Base.{
  ℕ, ◌*◌, ◌-◌, ◌/◌, ◌^◌, ◌≤◌, ◌<◌, ◌≡◌, refl, sym, ap, ◌∙◌, ◌≢◌, false, Option, none, some, arith,
}
use np_linuxptp_daemon.Base.Int.{ℤ, pos, ◌+ℤ◌, ◌-ℤ◌, ◌≤ℤ◌, scale, quot, clamp64, wrap64_small}
use np_linuxptp_daemon.Strings.{Bytes}
use np_linuxptp_daemon.Leap.Calendar.{nanoseconds, time_of, seconds_of}
use np_linuxptp_daemon.Leap.File.{LeapEvent}
use np_linuxptp_daemon.Leap.Manager.{Manager, last_event, new_event, update_leap_file}
use np_linuxptp_daemon.Leap.Indication.{
  TimeLs, leap_sec_of, before_now, found, leap_result, process_leap_indication,
}
use np_linuxptp_daemon.Leap.Indication.Settles.{
  new_event-time, process_leap_indication-found, leap_result-found, updated_file-last,
  update_leap_file_lem,
}
use np_linuxptp_daemon.Leap.Window.{is_between, is_leap_in_window, window_start, window_end}

-- A time read back from its seconds loses the part of a second.
pub time_of-seconds_of :
    (t : ℕ) → t < 2 ^ 63 → time_of (seconds_of (pos t)) ≡ pos (t / nanoseconds * nanoseconds)
unfolding time_of seconds_of clamp64 quot scale
time_of-seconds_of t h = ground (arith, wrap64_small (t / nanoseconds * nanoseconds))

-- The window lies before the present.
is_between_past :
    (t later : ℕ)
    → t ≤ later
    → is_between (pos (t / nanoseconds * nanoseconds)) (pos later) window_start window_end ≡ false
unfolding ◌-ℤ◌ ◌+ℤ◌
is_between_past t later h = ground arith

before_now-pos : (n : ℕ) → 60 * nanoseconds ≤ n → before_now (pos n) ≡ pos (n - 60 * nanoseconds)
unfolding ◌-ℤ◌
before_now-pos n h = ground arith

leap_result_unchanged :
    (d : TimeLs) (now : ℤ) {time sec update : ℤ}
    → d.ls_change ≡ pos 0
    → pos 0 ≤ℤ d.time_to_ls_event
    → leap_result d now ≡ found time sec update
    → time ≡ before_now now
unfolding leap_result
leap_result_unchanged d now unchanged ahead h = ground arith

last_of : Option Manager → Option LeapEvent
last_of none = none
last_of (some m) = last_event m.leap_file.leap_events

last_event-update_leap_file :
    (sha1_hex : Bytes → Bytes) (time sec now : ℤ) (m : Manager) {n : Manager}
    → sec ≢ pos 0
    → update_leap_file sha1_hex time sec now m ≡ some n
    → last_event n.leap_file.leap_events ≡ some (new_event time sec)
unfolding last_of
last_event-update_leap_file sha1_hex time sec now m ne h =
    ap last_of (sym h ∙ update_leap_file_lem sha1_hex time sec now m ne)
    ∙ updated_file-last sha1_hex time sec now m.leap_file ne

-- Where an indication of no change and of an event that is not past updates the file, no later time
-- is in the window in which pmc commands are sent.
pub is_leap_in_window_shifted :
    (sha1_hex : Bytes → Bytes) (d : TimeLs) (now later : ℕ) (m : Manager) {time sec update : ℤ}
    {n : Manager}
    → 60 * nanoseconds ≤ now
    → now < 2 ^ 63
    → d.ls_change ≡ pos 0
    → pos 0 ≤ℤ d.time_to_ls_event
    → leap_sec_of d ≢ pos 0
    → process_leap_indication d (pos now) m ≡ found time sec update
    → update_leap_file sha1_hex time sec update m ≡ some n
    → now ≤ later
    → is_leap_in_window n (pos later) window_start window_end ≡ some false
unfolding is_leap_in_window
is_leap_in_window_shifted sha1_hex d now later m {time = time} {sec = sec} {update = update} {n = n}
      after_start small unchanged ahead ne h k l =
    let result = process_leap_indication-found d (pos now) m h in
    let nonzero : sec ≢ pos 0 = rw ((leap_result-found d (pos now) result).0) ne in
    let shifted : time ≡ pos (now - 60 * nanoseconds) =
      leap_result_unchanged d (pos now) unchanged ahead result ∙ before_now-pos now after_start in
    rw
      (
        last_event-update_leap_file sha1_hex time sec update m nonzero k,
        new_event-time time sec,
        shifted,
        time_of-seconds_of (now - 60 * nanoseconds) (omega arith),
        is_between_past (now - 60 * nanoseconds) later (omega arith),
      )
      refl
