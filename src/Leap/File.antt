-- ===== src/Leap/File.antt =====
-- LeapFile, parseLeapFile and renderLeapData (pkg/leap/leap-file.go).
pub mod RoundTrip
use np_linuxptp_daemon.Base.{
  ℕ, Bool, true, false, not, List, [], ◌∷◌, ◌++◌, Option, none, some, ◌==◌, if◌then◌else◌,
  get_elem?, drop,
}
use np_linuxptp_daemon.Base.Int.{ℤ}
use np_linuxptp_daemon.Strings.{Bytes, codes, has_prefix}
use np_linuxptp_daemon.Strings.Fields.{fields, join}
use np_linuxptp_daemon.Strings.Lines.{split}
use np_linuxptp_daemon.Strings.Number.{parse_int, format_int}

-- The structs `LeapEvent` and `LeapFile`.
pub record LeapEvent : Type 0 where
  pub leap_time : Bytes
  pub leap_sec : ℤ
  pub comment : Bytes

pub record LeapFile : Type 0 where
  pub expiration_time : Bytes
  pub update_time : Bytes
  pub leap_events : List LeapEvent
  pub hash : Bytes

abbrev pub empty_file : LeapFile
empty_file = record { expiration_time = []; update_time = []; leap_events = []; hash = [] }

-- What parsing returns: the file, an error with the field that it names, or the panic of an index
-- out of range.
pub data Parsed : Type 0 where
  parsed : LeapFile → Parsed
  bad_seconds : Bytes → Parsed
  bad_time : Bytes → Parsed
  panicked : Parsed

-- `l.UpdateTime = fields[1]`
abbrev update_of : LeapFile → Option Bytes → Parsed
update_of l none = panicked
update_of l (some t) = parsed (record l { update_time = t })

-- `l.ExpirationTime = fields[1]`
abbrev expiration_of : LeapFile → Option Bytes → Parsed
expiration_of l none = panicked
expiration_of l (some t) = parsed (record l { expiration_time = t })

-- The event, once both numbers were read.
abbrev event_of : LeapFile → Bytes → Bytes → List Bytes → Option ℤ → Option ℤ → Parsed
event_of l time seconds comment none t = bad_seconds seconds
event_of l time seconds comment (some s) none = bad_time time
event_of l time seconds comment (some s) (some t) = parsed (record l {
  leap_events =
      l.leap_events ++ (record { leap_time = time; leap_sec = s; comment = join comment } ∷ []);
})

-- A line that is no comment: with fewer than two fields it is skipped.
unfoldable pub parse_event : LeapFile → List Bytes → Parsed
parse_event l [] = parsed l
parse_event l (w ∷ []) = parsed l
parse_event l (time ∷ seconds ∷ comment) =
    event_of l time seconds comment (parse_int 8 seconds) (parse_int 64 time)

-- The body of the loop.
unfoldable pub parse_line : LeapFile → Bytes → Parsed
unfolding parse_event
parse_line l line =
    if has_prefix line (codes "#$")
    then update_of l (get_elem? (fields line) 1)
    else if has_prefix line (codes "#@")
    then expiration_of l (get_elem? (fields line) 1)
    else if has_prefix line (codes "#h")
    then parsed (record l { hash = join (drop 1 (fields line)) })
    else if not (has_prefix line (codes "#"))
    then parse_event l (fields line)
    else parsed l

abbrev pub and_then : Parsed → (LeapFile → Parsed) → Parsed
and_then (parsed l) k = k l
and_then (bad_seconds s) k = bad_seconds s
and_then (bad_time t) k = bad_time t
and_then panicked k = panicked

unfoldable pub parse_lines : LeapFile → List Bytes → Parsed
parse_lines l [] = parsed l
parse_lines l (line ∷ lines) = and_then (parse_line l line) (λ l'. parse_lines l' lines)

-- `parseLeapFile`
unfoldable pub parse_leap_file : Bytes → Parsed
unfolding parse_lines
parse_leap_file b = parse_lines empty_file (split b'\n' b)

-- What `html/template` writes for a byte of a value.
unfoldable pub escape_byte : ℕ → Bytes
escape_byte c =
    if c == 0
    then 0xef ∷ 0xbf ∷ 0xbd ∷ []
    else if c == b'"'
    then codes "&#34;"
    else if c == b'&'
    then codes "&amp;"
    else if c == b'\''
    then codes "&#39;"
    else if c == b'+'
    then codes "&#43;"
    else if c == b'<'
    then codes "&lt;"
    else if c == b'>'
    then codes "&gt;"
    else c ∷ []

unfoldable pub escape : Bytes → Bytes
unfolding escape_byte
escape [] = []
escape (c ∷ s) = escape_byte c ++ escape s

-- `{{ .LeapTime }}     {{ .LeapSec }}    {{ .Comment }}`
unfoldable pub render_event : LeapEvent → Bytes
unfolding escape
render_event e =
    escape e.leap_time
    ++ (codes "     " ++ (escape (format_int e.leap_sec) ++ (codes "    " ++ escape e.comment)))

-- A line of the template, and what follows it.
abbrev pub line_onto : Bytes → Bytes → Bytes
line_onto l rest = l ++ b'\n' ∷ rest

unfoldable pub render_events : List LeapEvent → Bytes → Bytes
unfolding render_event
render_events [] rest = rest
render_events (e ∷ es) rest = line_onto (render_event e) (render_events es rest)

-- The two lines at the head of the template.
abbrev pub first_line : Bytes
first_line = codes "# Do not edit"

abbrev pub second_line : Bytes
second_line = codes "# This file is generated automatically by linuxptp-daemon"

-- `renderLeapData`
unfoldable pub render_leap_data : LeapFile → Bytes
unfolding render_events escape
render_leap_data l = line_onto first_line (
    line_onto second_line (
      line_onto (codes "#$\t" ++ escape l.update_time) (
        line_onto (codes "#@\t" ++ escape l.expiration_time)
          (render_events l.leap_events (line_onto [] (codes "#h\t" ++ escape l.hash))))))
