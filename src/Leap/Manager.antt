-- ===== src/Leap/Manager.antt =====
-- LeapManager (pkg/leap/leap-file.go): its leap file, the hash of the file, the UTC offset, the
-- configmap and the start. SHA-1, the configmap's service and the file on disk are parameters.
pub mod Hash
pub mod Printable
pub mod Stored
use np_linuxptp_daemon.Base.{
  ℕ, zero, suc, ◌+◌, ◌*◌, ◌≡◌, refl, Bool, true, false, List, [], ◌∷◌, ◌++◌, Option, none, some,
  String, if◌then◌else◌, take, drop,
}
use np_linuxptp_daemon.Base.Int.{ℤ, pos, eqb_ℤ, ltb_ℤ}
use np_linuxptp_daemon.Base.Map.{Map, lookup, insert}
use np_linuxptp_daemon.Strings.{Bytes}
use np_linuxptp_daemon.Strings.Number.{parse_int, format_int}
use np_linuxptp_daemon.Leap.File.{
  LeapEvent, LeapFile, empty_file, Parsed, parsed, bad_seconds, bad_time, panicked, parse_leap_file,
  render_leap_data,
}
use np_linuxptp_daemon.Leap.Calendar.{time_of, seconds_of, date_comment}

-- The fields of `LeapManager` that its operations change.
pub record Manager : Type 0 where
  pub leap_file : LeapFile
  pub retry_update : Bool
  pub utc_offset : ℤ
  pub utc_offset_time : ℤ
  pub pmc_leap_sent : Bool

abbrev pub new_manager : Manager
new_manager = record {
  leap_file = empty_file;
  retry_update = false;
  utc_offset = pos 0;
  utc_offset_time = pos 0;
  pmc_leap_sent = false;
}

-- `LeapEvents[len(LeapEvents)-1]`, which panics on an empty list.
unfoldable pub last_event : List LeapEvent → Option LeapEvent
last_event [] = none
last_event (e ∷ []) = some e
last_event (e ∷ f ∷ es) = last_event (f ∷ es)

-- `LeapEvents[len(LeapEvents)-2]`, if there are two events.
unfoldable pub event_before_last : List LeapEvent → Option LeapEvent
event_before_last [] = none
event_before_last (e ∷ []) = none
event_before_last (e ∷ f ∷ []) = some e
event_before_last (e ∷ f ∷ g ∷ es) = event_before_last (f ∷ g ∷ es)

abbrev offset_of_event : Option LeapEvent → Option ℤ
offset_of_event none = none
offset_of_event (some e) = some e.leap_sec

-- `GetUtcOffset`: none where it ends the process.
unfoldable pub get_utc_offset : ℤ → Option Manager → Option ℤ
unfolding event_before_last
get_utc_offset now none = none
get_utc_offset now (some m) =
    if ltb_ℤ m.utc_offset_time now
    then some m.utc_offset
    else offset_of_event (event_before_last m.leap_file.leap_events)

-- The assignments of `setUtcOffset`. Both callers drop the error of `Atoi`, and the manager is then
-- as it was.
abbrev pub take_offset : Manager → LeapEvent → Option ℤ → Manager
take_offset m e none = m
take_offset m e (some t) = record m { utc_offset_time = time_of t; utc_offset = e.leap_sec }

abbrev pub offset_from : Manager → Option LeapEvent → Option Manager
offset_from m none = none
offset_from m (some e) = some (take_offset m e (parse_int 64 e.leap_time))

-- `setUtcOffset`: none is the panic of an index out of range.
unfoldable pub set_utc_offset : Manager → Option Manager
unfolding last_event time_of
set_utc_offset m = offset_from m (last_event m.leap_file.leap_events)

-- The text that is hashed.
unfoldable pub hashed_events : List LeapEvent → Bytes → Bytes
hashed_events [] text = text
hashed_events (e ∷ es) text = hashed_events es (text ++ (e.leap_time ++ format_int e.leap_sec))

-- `if groupedHash != "" { groupedHash += " " }` and the next eight characters
abbrev pub add_group : Bytes → Bytes → Bytes
add_group [] group = group
add_group (c ∷ out) group = (c ∷ out) ++ 0x20 ∷ group

-- `hash[i*8 : (i+1)*8]`
abbrev pub slice : Bytes → ℕ → Bytes
slice hash i = take 8 (drop (i * 8) hash)

-- The loop over the groups from the one numbered `i` on.
unfoldable pub group_hash : Bytes → ℕ → ℕ → Bytes → Bytes
group_hash hash zero i out = out
group_hash hash (suc left) i out = group_hash hash left (suc i) (add_group out (slice hash i))

-- `rehashLeapData`, on the file of the manager
unfoldable pub rehash : (Bytes → Bytes) → LeapFile → LeapFile
unfolding hashed_events group_hash
rehash sha1_hex l = record l {
  hash =
      group_hash (sha1_hex (hashed_events l.leap_events (l.update_time ++ l.expiration_time))) 5 0
        [];
}

-- The event that `updateLeapFile` adds.
unfoldable pub new_event : ℤ → ℤ → LeapEvent
unfolding seconds_of date_comment
new_event time sec = record {
  leap_time = format_int (seconds_of time);
  leap_sec = sec;
  comment = date_comment time;
}

-- What `updateLeapFile` makes of the file.
unfoldable pub updated_file : (Bytes → Bytes) → ℤ → ℤ → ℤ → LeapFile → LeapFile
unfolding new_event seconds_of
updated_file sha1_hex time sec now l = rehash sha1_hex (record l {
  leap_events =
      if eqb_ℤ sec (pos 0) then l.leap_events else l.leap_events ++ new_event time sec ∷ [];
  update_time = format_int (seconds_of now);
})

-- `updateLeapFile`
unfoldable pub update_leap_file : (Bytes → Bytes) → ℤ → ℤ → ℤ → Manager → Option Manager
unfolding updated_file set_utc_offset
update_leap_file sha1_hex time sec now m =
    set_utc_offset (record m { leap_file = updated_file sha1_hex time sec now m.leap_file })

-- `updateLeapConfigmap` for the node of this name: the configmap as `Get` returns it or none for an
-- error, and whether `Update` accepts. The result has the data that were stored, if any.
unfoldable pub update_leap_configmap :
    String → Option (Map Bytes) → Bool → Manager → Manager × Option (Map Bytes)
update_leap_configmap node none accepts m = (record m { retry_update = true }, none)
update_leap_configmap node (some cm) false m = (record m { retry_update = true }, none)
update_leap_configmap node (some cm) true m =
    (record m { retry_update = false }, some (insert node (render_leap_data m.leap_file) cm))

-- What the start returns: the manager with the data it stored, an error, or a panic.
pub data Start : Type 0 where
  started : Manager → Option (Map Bytes) → Start
  refused : Start
  crashed : Start

abbrev pub start_with : Option (Map Bytes) → Option Manager → Start
start_with stored none = crashed
start_with stored (some m) = started m stored

-- The seconds from 1900 to 2036.
abbrev pub expiration : ℤ
expiration = pos 4291747200

-- The branch of `populateLeapData` for a configmap without this node; an accepted update stores.
unfoldable pub populate_from_file : (Bytes → Bytes) → String → Map Bytes → Bool → Parsed → Start
unfolding rehash set_utc_offset
populate_from_file sha1_hex node cm accepts (bad_seconds s) = refused
populate_from_file sha1_hex node cm accepts (bad_time s) = refused
populate_from_file sha1_hex node cm accepts panicked = crashed
populate_from_file sha1_hex node cm false (parsed l) = refused
populate_from_file sha1_hex node cm true (parsed l) =
    let file = rehash sha1_hex (record l { expiration_time = format_int expiration }) in
    start_with (some (insert node (render_leap_data file) cm))
      (set_utc_offset (record new_manager { leap_file = file }))

-- The branch for a configmap that has the node.
unfoldable pub populate_from_configmap : Parsed → Start
unfolding set_utc_offset
populate_from_configmap (bad_seconds s) = refused
populate_from_configmap (bad_time s) = refused
populate_from_configmap panicked = crashed
populate_from_configmap (parsed l) =
    start_with none (set_utc_offset (record new_manager { leap_file = l }))

abbrev file_text : Option Bytes → (Bytes → Start) → Start
file_text none k = refused
file_text (some b) k = k b

abbrev node_text : (Bytes → Bytes) → String → Map Bytes → Option Bytes → Bool → Option Bytes → Start
node_text sha1_hex node cm file accepts none =
    file_text file (λ b. populate_from_file sha1_hex node cm accepts (parse_leap_file b))
node_text sha1_hex node cm file accepts (some text) = populate_from_configmap (parse_leap_file text)

-- `populateLeapData` on a new manager
unfoldable pub populate_leap_data :
    (Bytes → Bytes) → String → Option (Map Bytes) → Option Bytes → Bool → Start
unfolding populate_from_file populate_from_configmap lookup
populate_leap_data sha1_hex node none file accepts = refused
populate_leap_data sha1_hex node (some cm) file accepts =
    node_text sha1_hex node cm file accepts (lookup node cm)
