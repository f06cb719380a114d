-- ===== src/Leap/Indication/Settles.antt =====
-- A leap indication that comes again, and the file that it updated (pkg/leap/leap-file.go).
use np_linuxptp_daemon.Base.{
  ◌≡◌, refl, ap, ◌∙◌, ◌≢◌, false, List, [], ◌∷◌, ◌++◌, Option, none, some, arith,
}
use np_linuxptp_daemon.Base.Int.{ℤ, pos, eqb_ℤ, eq_of_parts}
use np_linuxptp_daemon.Strings.{Bytes}
use np_linuxptp_daemon.Strings.Number.{parse_int, parse_int-format_int}
use np_linuxptp_daemon.Leap.File.{LeapEvent, LeapFile}
use np_linuxptp_daemon.Leap.Calendar.{time_of, seconds_of}
use np_linuxptp_daemon.Leap.Manager.{
  Manager, last_event, set_utc_offset, rehash, new_event, updated_file, update_leap_file,
}
use np_linuxptp_daemon.Leap.Manager.Printable.{seconds_of-Fits}
use np_linuxptp_daemon.Leap.Indication.{
  TimeLs, leap_sec_of, ignored, found, leap_result, compare_file, with_last,
  process_leap_indication,
}

pub last_event-snoc : (es : List LeapEvent) (e : LeapEvent) → last_event (es ++ e ∷ []) ≡ some e
unfolding last_event
last_event-snoc [] e = refl
last_event-snoc (f ∷ []) e = refl
last_event-snoc (f ∷ g ∷ es) e = last_event-snoc (g ∷ es) e

eqb_ℤ_ne : (z : ℤ) → z ≢ pos 0 → eqb_ℤ z (pos 0) ≡ false
eqb_ℤ_ne z ne = ground (arith, eq_of_parts z (pos 0))

updated_file-events :
    (sha1_hex : Bytes → Bytes) (time sec now : ℤ) (l : LeapFile)
    → sec ≢ pos 0
    → (updated_file sha1_hex time sec now l).leap_events ≡ l.leap_events ++ new_event time sec ∷ []
unfolding updated_file rehash
updated_file-events sha1_hex time sec now l ne = rw (eqb_ℤ_ne sec ne) refl

set_utc_offset-last :
    (m : Manager) (e : LeapEvent) (t : ℤ)
    → last_event m.leap_file.leap_events ≡ some e
    → parse_int 64 e.leap_time ≡ some t
    → set_utc_offset m ≡ some (record m { utc_offset_time = time_of t; utc_offset = e.leap_sec })
unfolding set_utc_offset
set_utc_offset-last m e t last reads = rw (last, reads) refl

pub new_event-time :
    (time sec : ℤ) → parse_int 64 ((new_event time sec).leap_time) ≡ some (seconds_of time)
unfolding new_event
new_event-time time sec = parse_int-format_int 64 (seconds_of time) (seconds_of-Fits time)

new_event-sec : (time sec : ℤ) → (new_event time sec).leap_sec ≡ sec
unfolding new_event
new_event-sec time sec = refl

pub updated_file-last :
    (sha1_hex : Bytes → Bytes) (time sec now : ℤ) (l : LeapFile)
    → sec ≢ pos 0
    → last_event ((updated_file sha1_hex time sec now l).leap_events) ≡ some (new_event time sec)
updated_file-last sha1_hex time sec now l ne =
    ap last_event (updated_file-events sha1_hex time sec now l ne)
    ∙ last_event-snoc l.leap_events (new_event time sec)

-- An update with leap seconds other than zero gives the manager the updated file, and the offset
-- and the time of the event that it adds.
pub update_leap_file_lem :
    (sha1_hex : Bytes → Bytes) (time sec now : ℤ) (m : Manager)
    → sec ≢ pos 0
    → update_leap_file sha1_hex time sec now m
      ≡ some (record m {
        leap_file = updated_file sha1_hex time sec now m.leap_file;
        utc_offset_time = time_of (seconds_of time);
        utc_offset = sec;
      })
unfolding update_leap_file new_event
update_leap_file_lem sha1_hex time sec now m ne =
    set_utc_offset-last (record m { leap_file = updated_file sha1_hex time sec now m.leap_file })
      (new_event time sec) (seconds_of time)
      (updated_file-last sha1_hex time sec now m.leap_file ne) (new_event-time time sec)

pub leap_result-found :
    (d : TimeLs) (now : ℤ) {time sec update : ℤ}
    → leap_result d now ≡ found time sec update
    → (sec ≡ leap_sec_of d) × (update ≡ now)
unfolding leap_result
leap_result-found d now h = ground arith

compare_file-found :
    (d : TimeLs) (now : ℤ) (e : LeapEvent) (t : Option ℤ) {time sec update : ℤ}
    → compare_file d now e t ≡ found time sec update
    → leap_result d now ≡ found time sec update
compare_file-found d now e none h = cc
compare_file-found d now e (some t) h = ground arith

with_last-found :
    (d : TimeLs) (now : ℤ) (e : Option LeapEvent) {time sec update : ℤ}
    → with_last d now e ≡ found time sec update
    → leap_result d now ≡ found time sec update
with_last-found d now none h = cc
with_last-found d now (some e) h = compare_file-found d now e (parse_int 64 e.leap_time) h

pub process_leap_indication-found :
    (d : TimeLs) (now : ℤ) (m : Manager) {time sec update : ℤ}
    → process_leap_indication d now m ≡ found time sec update
    → leap_result d now ≡ found time sec update
unfolding process_leap_indication
process_leap_indication-found d now m h =
    ground (arith, with_last-found d now (last_event m.leap_file.leap_events))

settled :
    (d : TimeLs) (later time : ℤ) (n : Manager)
    → last_event n.leap_file.leap_events ≡ some (new_event time (leap_sec_of d))
    → process_leap_indication d later n ≡ ignored
unfolding process_leap_indication
settled d later time n last =
    rw (last, new_event-time time (leap_sec_of d), new_event-sec time (leap_sec_of d))
      (ground arith)

-- The result of an indication has the leap seconds that it announces and the present time. Where
-- these are not zero, the update of the file with the result succeeds, and the same indication has
-- no result at any later time.
pub process_leap_indication-update_leap_file :
    (sha1_hex : Bytes → Bytes) (d : TimeLs) (now later : ℤ) (m : Manager) {time sec update : ℤ}
    → leap_sec_of d ≢ pos 0
    → process_leap_indication d now m ≡ found time sec update
    → (sec ≡ leap_sec_of d)
      × (update ≡ now)
      × (n : Manager) × (update_leap_file sha1_hex time sec update m ≡ some n)
      × (n.utc_offset ≡ leap_sec_of d)
      × (process_leap_indication d later n ≡ ignored)
process_leap_indication-update_leap_file sha1_hex d now later m {time = time} {sec = sec}
      {update = update} ne h =
    let (seconds, present) = leap_result-found d now (process_leap_indication-found d now m h) in
    let n : Manager = record m {
      leap_file = updated_file sha1_hex time sec update m.leap_file;
      utc_offset_time = time_of (seconds_of time);
      utc_offset = sec;
    } in
    let nonzero : sec ≢ pos 0 = rw seconds ne in
    (
      seconds,
      present,
      n,
      update_leap_file_lem sha1_hex time sec update m nonzero,
      seconds,
      settled d later time n (
          updated_file-last sha1_hex time sec update m.leap_file nonzero
          ∙ ap (λ z. some (new_event time z)) seconds),
    )
