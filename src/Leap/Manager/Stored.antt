-- ===== src/Leap/Manager/Stored.antt =====
-- The leap file in the configmap and after a restart (pkg/leap/leap-file.go).

use np_linuxptp_daemon.Base.{
  ◌≡◌, refl, ap, ◌≢◌, Bool, true, false, List, [], ◌∷◌, ◌++◌, Option, none, some, String,
  if◌then◌else◌,
}
use np_linuxptp_daemon.Base.Int.{ℤ, pos, eqb_ℤ}
use np_linuxptp_daemon.Base.Map.{Map, lookup-insert, str_eq_refl}
use np_linuxptp_daemon.Strings.{Bytes}
use np_linuxptp_daemon.Strings.Number.{Fits, parse_int}
use np_linuxptp_daemon.Leap.File.{LeapEvent, LeapFile, render_leap_data}
use np_linuxptp_daemon.Leap.File.RoundTrip.{IsPrintable, parse_leap_file-render_leap_data}
use np_linuxptp_daemon.Leap.Manager.{
  Manager, last_event, set_utc_offset, take_offset, new_manager, rehash, new_event, updated_file,
  update_leap_file, update_leap_configmap, populate_leap_data, Start, started, refused, crashed,
  populate_from_configmap,
}
use np_linuxptp_daemon.Leap.Manager.Hash.{IsSha1}
use np_linuxptp_daemon.Leap.Manager.Printable.{updated_file-IsPrintable}

-- The file that a start is left with.
abbrev pub file_of : Start → Option LeapFile
file_of (started m stored) = some m.leap_file
file_of refused = none
file_of crashed = none

last_event-some : (es : List LeapEvent) → es ≢ [] → (e : LeapEvent) × (last_event es ≡ some e)
unfolding last_event
last_event-some [] ne = absurd (ne refl)
last_event-some (e ∷ []) ne = (e, refl)
last_event-some (e ∷ f ∷ es) ne = last_event-some (f ∷ es) (λ h. cc)

pub take_offset-file :
    (m : Manager) (e : LeapEvent) (t : Option ℤ) → (take_offset m e t).leap_file ≡ m.leap_file
take_offset-file m e none = refl
take_offset-file m e (some t) = refl

set_utc_offset-file :
    (m : Manager)
    → m.leap_file.leap_events ≢ []
    → (n : Manager) × (set_utc_offset m ≡ some n) × (n.leap_file ≡ m.leap_file)
unfolding set_utc_offset
set_utc_offset-file m ne =
    let (e, last) = last_event-some m.leap_file.leap_events ne in
    (
      take_offset m e (parse_int 64 e.leap_time),
      rw last refl,
      take_offset-file m e (parse_int 64 e.leap_time),
    )

-- A restart after an accepted update of the configmap has the file back.
populate-update_leap_configmap :
    (sha1_hex : Bytes → Bytes) (node : String) (cm : Map Bytes) (file : Option Bytes)
    (accepts : Bool) (m : Manager)
    → IsPrintable m.leap_file
    → m.leap_file.leap_events ≢ []
    → file_of (
        populate_leap_data sha1_hex node
          ((update_leap_configmap node (some cm) true m).1)
          file
          accepts)
      ≡ some m.leap_file
unfolding populate_leap_data update_leap_configmap populate_from_configmap
populate-update_leap_configmap sha1_hex node cm file accepts m p ne =
    let (n, done, same) = set_utc_offset-file (record new_manager { leap_file = m.leap_file }) ne in
    rw
      (
        lookup-insert node node (render_leap_data m.leap_file) cm,
        str_eq_refl node,
        parse_leap_file-render_leap_data m.leap_file p,
        done,
      )
      (ap some same)

either-ne-nil :
    (b : Bool) (es : List LeapEvent) (e : LeapEvent)
    → es ≢ []
    → (if b then es else es ++ e ∷ []) ≢ []
either-ne-nil true es e ne = ne
either-ne-nil false [] e ne = absurd (ne refl)
either-ne-nil false (f ∷ es) e ne = λ h. cc

updated_file-ne-nil :
    (sha1_hex : Bytes → Bytes) (time sec now : ℤ) (l : LeapFile)
    → l.leap_events ≢ []
    → (updated_file sha1_hex time sec now l).leap_events ≢ []
unfolding updated_file rehash
updated_file-ne-nil sha1_hex time sec now l ne =
    either-ne-nil (eqb_ℤ sec (pos 0)) l.leap_events (new_event time sec) ne

-- An update of a printable leap file that has events succeeds for leap seconds of eight bits, and a
-- restart after it was stored in the configmap has the updated file, whatever the file on disk is.
pub populate-update_leap_file :
    (sha1_hex : Bytes → Bytes) (node : String) (cm : Map Bytes) (file : Option Bytes)
    (accepts : Bool) (time sec now : ℤ) (m : Manager)
    → IsSha1 sha1_hex
    → Fits 8 sec
    → IsPrintable m.leap_file
    → m.leap_file.leap_events ≢ []
    → (n : Manager) × (update_leap_file sha1_hex time sec now m ≡ some n)
      × (n.leap_file ≡ updated_file sha1_hex time sec now m.leap_file)
      × (file_of (
            populate_leap_data sha1_hex node
              ((update_leap_configmap node (some cm) true n).1)
              file
              accepts)
          ≡ some n.leap_file)
unfolding update_leap_file
populate-update_leap_file sha1_hex node cm file accepts time sec now m h fits p ne =
    let l = updated_file sha1_hex time sec now m.leap_file in
    let some_events = updated_file-ne-nil sha1_hex time sec now m.leap_file ne in
    let (n, done, same) = set_utc_offset-file (record m { leap_file = l }) some_events in
    let printable : IsPrintable n.leap_file =
      rw same (updated_file-IsPrintable sha1_hex time sec now m.leap_file h fits p) in
    let events : n.leap_file.leap_events ≢ [] = rw same some_events in
    (n, done, same, populate-update_leap_configmap sha1_hex node cm file accepts n printable events)
