-- ===== src/Daemon/Config/Laws.antt =====
-- What every parsed configuration has (populatePtp4lConf in pkg/daemon/config.go).
use np_linuxptp_daemon.Base.{
  ℕ, ◌≡◌, refl, sym, ap, ◌∙◌, Bool, true, false, not, ◌||◌, List, [], ◌∷◌, ◌++◌, Option, none, some,
  arith, ◌==◌, ltb, if◌then◌else◌, take, drop, any,
}
use np_linuxptp_daemon.Strings.{Bytes, codes, bytes_eq, has_prefix, trim_space}
use np_linuxptp_daemon.Strings.Lines.{split}
use np_linuxptp_daemon.Event.Types.{gm}
use np_linuxptp_daemon.Daemon.Config.{
  Section, Conf, index_byte, next_index, Scan, scan_start, Scanned, scanned, unclosed_section,
  option_outside, global_name, is_empty, close_section, open_section, is_slave_option, set_option,
  option_line, scan_line, then_lines, scan_lines, Populated, populated, bad_section, bad_option,
  finish, populated_by, populate,
}

-- Where the index points to.
abbrev IsAt : ℕ → Bytes → Option ℕ → Type 0
IsAt b s none = Unit
IsAt b s (some i) = (t : Bytes) × (drop i s ≡ b ∷ t)

next_index-IsAt : (b c : ℕ) (s : Bytes) (o : Option ℕ) → IsAt b s o → IsAt b (c ∷ s) (next_index o)
next_index-IsAt b c s none h = tt
next_index-IsAt b c s (some i) h = h

either-IsAt :
    (test : Bool) (b c : ℕ) (s : Bytes) (o : Option ℕ)
    → (test ≡ true → c ≡ b)
    → IsAt b (c ∷ s) o
    → IsAt b (c ∷ s) (if test then some 0 else o)
either-IsAt true b c s o same h = (s, rw (same refl) refl)
either-IsAt false b c s o same h = h

index_byte-IsAt : (b : ℕ) (s : Bytes) → IsAt b s (index_byte b s)
unfolding index_byte
index_byte-IsAt b [] = tt
index_byte-IsAt b (c ∷ s) =
    either-IsAt (c == b) b c s (next_index (index_byte b s)) (λ h. ground arith)
      (next_index-IsAt b c s (index_byte b s) (index_byte-IsAt b s))

is_slave_option_blank : (key t : Bytes) → is_slave_option key (b' ' ∷ t) ≡ false
unfolding is_slave_option bytes_eq
is_slave_option_blank key t = ground arith

either-slave :
    (test : Bool) (s t : Scan)
    → s.slave_defined ≡ false
    → t.slave_defined ≡ false
    → (if test then s else t).slave_defined ≡ false
either-slave true s t h k = h
either-slave false s t h k = k

set_option-slave :
    (s : Scan) (key value : Bytes)
    → s.slave_defined ≡ false
    → (t : Bytes) × (value ≡ b' ' ∷ t)
    → (set_option s key value).slave_defined ≡ false
set_option-slave s key value h (t, same) = rw (same, is_slave_option_blank key t) h

option_line-slave :
    (s : Scan) (line : Bytes) (o : Option ℕ)
    → s.slave_defined ≡ false
    → IsAt b' ' line o
    → (option_line s line o).slave_defined ≡ false
option_line-slave s line none h at = h
option_line-slave s line (some i) h at =
    either-slave (ltb 0 i) (set_option s (take i line) (drop i line)) s
      (set_option-slave s (take i line) (drop i line) h at) h

abbrev pub has_global : List Section → Bool
has_global = any (λ s. bytes_eq s.section_name global_name)

-- What holds of the variables after every line.
record IsScan (s : Scan) : Type 0 where
  no_slave : s.slave_defined ≡ false
  named : s.current.section_name ≡ s.current_name
  global : s.global_defined ≡ true → has_global (close_section s) ≡ true

scan_start-IsScan : IsScan scan_start
scan_start-IsScan = record { no_slave = refl; named = refl; global = λ h. cc }

-- A line that is read keeps it.
abbrev AllScanned : Scanned → Type 0
AllScanned (scanned s) = IsScan s
AllScanned (unclosed_section line) = Unit
AllScanned (option_outside line) = Unit

has_global-append :
    (xs : List Section) (y : Section)
    → has_global (xs ++ y ∷ []) ≡ has_global xs || bytes_eq y.section_name global_name
has_global-append [] y = ground arith
has_global-append (x ∷ xs) y = ground (arith, has_global-append xs y)

is_empty-append : (a : Bytes) (c : ℕ) → is_empty (a ++ c ∷ []) ≡ false
is_empty-append [] c = refl
is_empty-append (d ∷ a) c = refl

-- The sections with the one at hand, by whether there is one.
either-global :
    (none_yet : Bool) (xs : List Section) (y : Section)
    → has_global (if none_yet then xs else xs ++ y ∷ [])
      ≡ (if none_yet then has_global xs else has_global xs || bytes_eq y.section_name global_name)
either-global true xs y = refl
either-global false xs y = has_global-append xs y

open_section-AllScanned :
    (s : Scan) (line : Bytes) (parts : List Bytes)
    → IsScan s
    → AllScanned (open_section s line parts)
open_section-AllScanned s line [] h = tt
open_section-AllScanned s line (name ∷ []) h = tt
open_section-AllScanned s line (name ∷ after ∷ more) h =
    let current = name ++ codes "]" in
    let opened : Section = record { section_name = current; options = [] } in
    record {
      no_slave = h.no_slave;
      named = refl;
      global = λ defined.
          unfold close_section in
          ap (λ b. has_global (if b then close_section s else close_section s ++ opened ∷ []))
            (is_empty-append name b']')
          ∙ has_global-append (close_section s) opened
          ∙ ground (arith, h.global);
    }

set_option-IsScan :
    (s : Scan) (key value : Bytes)
    → (set_option s key value).slave_defined ≡ false
    → IsScan s
    → IsScan (set_option s key value)
set_option-IsScan s key value no_slave h = record {
  no_slave = no_slave;
  named = h.named;
  global = λ defined.
      unfold close_section in
      either-global (is_empty s.current_name) s.sections _
      ∙ sym (either-global (is_empty s.current_name) s.sections s.current)
      ∙ (unfold close_section in h.global defined);
}

either-IsScan : (test : Bool) (s t : Scan) → IsScan s → IsScan t → IsScan (if test then s else t)
either-IsScan true s t h k = h
either-IsScan false s t h k = k

option_line-IsScan :
    (s : Scan) (line : Bytes) (o : Option ℕ)
    → IsScan s
    → IsAt b' ' line o
    → IsScan (option_line s line o)
option_line-IsScan s line none h at = h
option_line-IsScan s line (some i) h at =
    either-IsScan (ltb 0 i) _ s
      (set_option-IsScan s (take i line) (drop i line)
        (set_option-slave s (take i line) (drop i line) h.no_slave at) h)
      h

either-AllScanned :
    (test : Bool) (a b : Scanned) → AllScanned a → AllScanned b → AllScanned (if test then a else b)
either-AllScanned true a b h k = h
either-AllScanned false a b h k = k

scan_line-AllScanned : (s : Scan) (line : Bytes) → IsScan s → AllScanned (scan_line s line)
unfolding scan_line
scan_line-AllScanned s line h = either-AllScanned (has_prefix line (codes "#")) _ _ h (
    either-AllScanned (has_prefix line (codes "[")) _ _
      (open_section-AllScanned s line (split b']' line) h)
      (either-AllScanned (not (is_empty s.current_name)) _ _
        (option_line-IsScan s line (index_byte b' ' line) h (index_byte-IsAt b' ' line)) tt))

then_lines-AllScanned :
    (r : Scanned) (k : Scan → Scanned)
    → AllScanned r
    → ((s : Scan) → IsScan s → AllScanned (k s))
    → AllScanned (then_lines r k)
then_lines-AllScanned (scanned s) k h g = g s h
then_lines-AllScanned (unclosed_section line) k h g = tt
then_lines-AllScanned (option_outside line) k h g = tt

scan_lines-AllScanned : (lines : List Bytes) (s : Scan) → IsScan s → AllScanned (scan_lines lines s)
unfolding scan_lines
scan_lines-AllScanned [] s h = h
scan_lines-AllScanned (line ∷ lines) s h =
    then_lines-AllScanned (scan_line s (trim_space line)) (scan_lines lines)
      (scan_line-AllScanned s (trim_space line) h) (λ t k. scan_lines-AllScanned lines t k)

-- What holds of the outcome.
abbrev AllPopulated : Populated → Type 0
AllPopulated (populated c) = (c.clock_type ≡ gm) × (has_global c.sections ≡ true)
AllPopulated (bad_section line) = Unit
AllPopulated (bad_option line) = Unit

with_global-true :
    (defined : Bool) (xs : List Section)
    → (defined ≡ true → has_global xs ≡ true)
    → has_global
        (if defined then xs else xs ++ record { section_name = global_name; options = [] } ∷ [])
      ≡ true
unfolding bytes_eq
with_global-true true xs h = h refl
with_global-true false xs h = has_global-append xs _ ∙ ground arith

finish-global : (s : Scan) → IsScan s → has_global (finish s).sections ≡ true
unfolding finish
finish-global s h = with_global-true s.global_defined (close_section s) h.global

finish-AllPopulated : (s : Scan) → IsScan s → AllPopulated (populated (finish s))
finish-AllPopulated s h = ((unfold finish in rw h.no_slave refl), finish-global s h)

populated_by-AllPopulated : (r : Scanned) → AllScanned r → AllPopulated (populated_by r)
populated_by-AllPopulated (scanned s) h = finish-AllPopulated s h
populated_by-AllPopulated (unclosed_section line) h = tt
populated_by-AllPopulated (option_outside line) h = tt

populate-AllPopulated : (config : Option Bytes) → AllPopulated (populate config)
unfolding populate
populate-AllPopulated none = finish-AllPopulated scan_start scan_start-IsScan
populate-AllPopulated (some config) =
    populated_by-AllPopulated _
      (scan_lines-AllScanned (split b'\n' config) scan_start scan_start-IsScan)

-- Every configuration that is parsed is one of a grandmaster, whatever options its sections have:
-- the value that the test compares starts with a blank.
pub populate-gm :
    (config : Option Bytes) {c : Conf} → populate config ≡ populated c → c.clock_type ≡ gm
populate-gm config {c = c} h = (coe 0 1 (i. AllPopulated (h i)) (populate-AllPopulated config)).0

-- Every configuration that is parsed has a section for the global options.
pub populate-has_global :
    (config : Option Bytes) {c : Conf}
    → populate config ≡ populated c
    → has_global c.sections ≡ true
populate-has_global config {c = c} h =
    (coe 0 1 (i. AllPopulated (h i)) (populate-AllPopulated config)).1
