-- ===== src/Receiver/Report.antt =====
-- The reports of the receiver (pkg/ublox/ublox.go): ExtractOffset, ExtractNavStatus and
-- ExtractLeapSec. The value of a number that a prefix gives the base of is a parameter.
pub mod Message
pub mod Leaps
use np_linuxptp_daemon.Base.{
  ℕ, ◌%◌, Bool, true, false, List, [], ◌∷◌, Option, none, some, if◌then◌else◌,
}
use np_linuxptp_daemon.Base.Int.{ℤ, pos, negsuc}
use np_linuxptp_daemon.Strings.{Bytes, codes, bytes_eq, contains}
use np_linuxptp_daemon.Strings.Lines.{split}
use np_linuxptp_daemon.Strings.Fields.{fields}
use np_linuxptp_daemon.Strings.Number.{int_value, uint_value}
use np_linuxptp_daemon.Leap.Indication.{TimeLs}

-- The search in the fields of a line: nothing, the value behind the word, or the panic where no
-- field is behind it.
pub data Search : Type 0 where
  missing : Search
  value : ℤ → Search
  crash : Search

abbrev value_of : List Bytes → Search
value_of [] = crash
value_of (field ∷ rest) = value (int_value 64 field)

unfoldable pub search_fields : Bytes → List Bytes → Search
unfolding int_value
search_fields word [] = missing
search_fields word (field ∷ rest) =
    let more = search_fields word rest in if bytes_eq field word then value_of rest else more

abbrev or_search : Search → Search → Search
or_search missing more = more
or_search (value z) more = value z
or_search crash more = crash

unfoldable pub search_lines : Bytes → List Bytes → Search
unfolding contains search_fields
search_lines word [] = missing
search_lines word (line ∷ lines) =
    let more = search_lines word lines in
    if contains line word then or_search (search_fields word (fields line)) more else more

-- -1 where no line has the word; none is a panic.
abbrev found_value : Search → Option ℤ
found_value missing = some (negsuc 0)
found_value (value z) = some z
found_value crash = none

-- `ExtractOffset`
unfoldable pub extract_offset : Bytes → Option ℤ
unfolding search_lines
extract_offset output = found_value (search_lines (codes "tAcc") (split b'\n' output))

-- `ExtractNavStatus`
unfoldable pub extract_nav_status : Bytes → Option ℤ
unfolding search_lines
extract_nav_status output = found_value (search_lines (codes "gpsFix") (split b'\n' output))

abbrev pub no_leaps : TimeLs
no_leaps = record {
  src_of_curr_ls = 0;
  curr_ls = pos 0;
  src_of_ls_change = 0;
  ls_change = pos 0;
  time_to_ls_event = pos 0;
  date_of_ls_gps_wn = 0;
  date_of_ls_gps_dn = 0;
  valid = 0;
}

-- The assignments of the switch, by the word that they stand behind.
pub data Entry : Type 0 where
  src_of_curr : Entry
  curr : Entry
  src_of_change : Entry
  change : Entry
  time_to_event : Entry
  gps_week : Entry
  gps_day : Entry
  flags : Entry

unfoldable pub entry_of : Bytes → Option Entry
entry_of field =
    if bytes_eq field (codes "srcOfCurrLs")
    then some src_of_curr
    else if bytes_eq field (codes "currLs")
    then some curr
    else if bytes_eq field (codes "srcOfLsChange")
    then some src_of_change
    else if bytes_eq field (codes "lsChange")
    then some change
    else if bytes_eq field (codes "timeToLsEvent")
    then some time_to_event
    else if bytes_eq field (codes "dateOfLsGpsWn")
    then some gps_week
    else if bytes_eq field (codes "dateOfLsGpsDn")
    then some gps_day
    else if bytes_eq field (codes "valid")
    then some flags
    else none

module _ (base0_value : Bytes → ℕ) where
  unfoldable pub set_entry : Entry → Bytes → TimeLs → TimeLs
  unfolding uint_value int_value
  set_entry src_of_curr v d = record d { src_of_curr_ls = uint_value 8 v }
  set_entry curr v d = record d { curr_ls = int_value 8 v }
  set_entry src_of_change v d = record d { src_of_ls_change = uint_value 8 v }
  set_entry change v d = record d { ls_change = int_value 8 v }
  set_entry time_to_event v d = record d { time_to_ls_event = int_value 32 v }
  set_entry gps_week v d = record d { date_of_ls_gps_wn = uint_value 16 v }
  set_entry gps_day v d = record d { date_of_ls_gps_dn = uint_value 16 v % 256 }
  set_entry flags v d = record d { valid = base0_value (b'0' ∷ v) }

  abbrev set_next : Option Entry → List Bytes → TimeLs → Option TimeLs
  set_next none rest d = some d
  set_next (some e) [] d = none
  set_next (some e) (v ∷ rest) d = some (set_entry e v d)

  abbrev pub and_fields : Option TimeLs → (TimeLs → Option TimeLs) → Option TimeLs
  and_fields none k = none
  and_fields (some d) k = k d

  unfoldable pub leap_fields : List Bytes → TimeLs → Option TimeLs
  unfolding set_entry entry_of
  leap_fields [] d = some d
  leap_fields (field ∷ rest) d = and_fields (set_next (entry_of field) rest d) (leap_fields rest)

  -- `ExtractLeapSec`: none is the panic where a word is the last field of its line.
  unfoldable pub extract_leap_sec : List Bytes → TimeLs → Option TimeLs
  unfolding leap_fields
  extract_leap_sec [] d = some d
  extract_leap_sec (line ∷ output) d =
      and_fields (leap_fields (fields line) d) (extract_leap_sec output)
