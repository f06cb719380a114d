-- ===== src/Daemon/Config.antt =====
-- The parser of configurations in pkg/daemon/config.go: ptp4lConf, ptp4lConfSection and
-- populatePtp4lConf.
pub mod Laws
use np_linuxptp_daemon.Base.{
  ℕ, suc, Bool, true, false, not, ◌&&◌, ◌||◌, List, [], ◌∷◌, ◌++◌, Option, none, some, ◌==◌, ltb,
  if◌then◌else◌, length, take, drop,
}
use np_linuxptp_daemon.Strings.{Bytes, codes, bytes_eq, has_prefix, trim_space}
use np_linuxptp_daemon.Strings.Lines.{split}
use np_linuxptp_daemon.Strings.Dict.{Dict, put}
use np_linuxptp_daemon.Event.Types.{ClockType, gm, bc, oc}

-- The struct `ptp4lConfSection`.
pub record Section : Type 0 where
  pub section_name : Bytes
  pub options : Dict Bytes

-- The fields of `ptp4lConf` that parsing sets.
pub record Conf : Type 0 where
  pub sections : List Section
  pub clock_type : ClockType

abbrev pub next_index : Option ℕ → Option ℕ
next_index none = none
next_index (some i) = some (suc i)

-- `strings.IndexByte`
unfoldable pub index_byte : ℕ → Bytes → Option ℕ
index_byte b [] = none
index_byte b (c ∷ s) = let rest = index_byte b s in if c == b then some 0 else next_index rest

-- The local variables of `populatePtp4lConf`; the name is empty before the first section.
pub record Scan : Type 0 where
  pub sections : List Section
  pub current_name : Bytes
  pub current : Section
  pub global_defined : Bool
  pub slave_defined : Bool

abbrev pub scan_start : Scan
scan_start = record {
  sections = [];
  current_name = [];
  current = record { section_name = []; options = [] };
  global_defined = false;
  slave_defined = false;
}

-- How the loop goes on: with the variables, or with one of the two errors and the line it names.
pub data Scanned : Type 0 where
  scanned : Scan → Scanned
  unclosed_section : Bytes → Scanned
  option_outside : Bytes → Scanned

abbrev pub global_name : Bytes
global_name = codes "[global]"

-- `if currentSectionName != "" { output.sections = append(…) }`
abbrev pub is_empty : Bytes → Bool
is_empty [] = true
is_empty (c ∷ s) = false

unfoldable pub close_section : Scan → List Section
close_section s = if is_empty s.current_name then s.sections else s.sections ++ s.current ∷ []

-- A line that starts with a bracket, by what stands around the closing ones.
abbrev open_section : Scan → Bytes → List Bytes → Scanned
open_section s line [] = unclosed_section line
open_section s line (name ∷ []) = unclosed_section line
open_section s line (name ∷ after ∷ more) =
    let current = name ++ codes "]" in
    scanned (record {
      sections = close_section s;
      current_name = current;
      current = record { section_name = current; options = [] };
      global_defined = bytes_eq current global_name || s.global_defined;
      slave_defined = s.slave_defined;
    })

-- The test for an option that makes a port a slave, on the key and what follows it.
unfoldable pub is_slave_option : Bytes → Bytes → Bool
is_slave_option key value =
    bytes_eq key (codes "masterOnly") && bytes_eq value (codes "0")
    || (bytes_eq key (codes "serverOnly") && bytes_eq value (codes "0")
        || (bytes_eq key (codes "slaveOnly") && bytes_eq value (codes "1")
            || (bytes_eq key (codes "clientOnly") && bytes_eq value (codes "1"))))

-- `currentSection.options[line[:split]] = line[split:]`
abbrev pub set_option : Scan → Bytes → Bytes → Scan
set_option s key value = record s {
  current = record (s.current) { options = put key value s.current.options };
  slave_defined = is_slave_option key value || s.slave_defined;
}

-- A line of a section: it has an option where the first blank is not at its start.
abbrev pub option_line : Scan → Bytes → Option ℕ → Scan
option_line s line none = s
option_line s line (some i) = if ltb 0 i then set_option s (take i line) (drop i line) else s

-- The body of the loop, for the trimmed line.
unfoldable pub scan_line : Scan → Bytes → Scanned
unfolding close_section is_slave_option
scan_line s line =
    if has_prefix line (codes "#")
    then scanned s
    else if has_prefix line (codes "[")
    then open_section s line (split b']' line)
    else if not (is_empty s.current_name)
    then scanned (option_line s line (index_byte b' ' line))
    else option_outside line

abbrev pub then_lines : Scanned → (Scan → Scanned) → Scanned
then_lines (scanned s) k = k s
then_lines (unclosed_section line) k = unclosed_section line
then_lines (option_outside line) k = option_outside line

unfoldable pub scan_lines : List Bytes → Scan → Scanned
unfolding scan_line
scan_lines [] s = scanned s
scan_lines (line ∷ lines) s = then_lines (scan_line s (trim_space line)) (scan_lines lines)

-- What `populatePtp4lConf` returns: the parsed configuration, or an error.
pub data Populated : Type 0 where
  populated : Conf → Populated
  bad_section : Bytes → Populated
  bad_option : Bytes → Populated

-- The sections with one for the global options.
abbrev pub with_global : Scan → List Section
with_global s =
    if s.global_defined
    then close_section s
    else close_section s ++ record { section_name = global_name; options = [] } ∷ []

-- The end of the function.
unfoldable pub finish : Scan → Conf
unfolding close_section
finish s = record {
  sections = with_global s;
  clock_type =
      if not s.slave_defined then gm else if ltb 2 (length (with_global s)) then bc else oc;
}

abbrev populated_by : Scanned → Populated
populated_by (scanned s) = populated (finish s)
populated_by (unclosed_section line) = bad_section line
populated_by (option_outside line) = bad_option line

-- `populatePtp4lConf`; none is a nil pointer.
unfoldable pub populate : Option Bytes → Populated
unfolding scan_lines finish
populate none = populated (finish scan_start)
populate (some config) = populated_by (scan_lines (split b'\n' config) scan_start)
