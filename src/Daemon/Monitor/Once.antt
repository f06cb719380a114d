-- ===== src/Daemon/Monitor/Once.antt =====
-- addFlagsForMonitor (pkg/daemon/metrics.go) on what it has made.
use np_linuxptp_daemon.Base.{
  ℕ, ◌≡◌, refl, sym, ap, ◌∙◌, Bool, true, false, not, ◌&&◌, List, [], ◌∷◌, map, Option, none, some,
  arith, if◌then◌else◌,
}
use np_linuxptp_daemon.Strings.{Bytes, codes, bytes_eq, bytes_eq_iff, has_prefix, contains}
use np_linuxptp_daemon.Strings.Search.{contains-append, contains_behind}
use np_linuxptp_daemon.Strings.Dict.{find, put, find-put}
use np_linuxptp_daemon.Daemon.Config.{Section, global_name, is_empty}
use np_linuxptp_daemon.Daemon.Monitor.{
  Process, ptp4l, phc2sys, ts2phc, other_process, is_some, add_interval, add_message_flag,
  add_summary_flag, add_flags_for_monitor,
}

contains-add_message_flag : (opts : Bytes) → contains (add_message_flag opts) (codes "-m") ≡ true
unfolding add_message_flag contains has_prefix
contains-add_message_flag opts =
    ground (arith, contains_behind opts (codes " -m") (codes "-m") refl)

add_message_flag_has :
    (opts : Bytes) → contains opts (codes "-m") ≡ true → add_message_flag opts ≡ opts
unfolding add_message_flag
add_message_flag_has opts h = rw h

-- The flag for messages stays, and one for summaries is there where it is wanted.
add_summary_flag_keeps :
    (socket : Bool) (opts : Bytes)
    → contains opts (codes "-m") ≡ true
    → contains (add_summary_flag socket opts) (codes "-m") ≡ true
add_summary_flag_keeps socket opts h =
    ground (arith, contains-append opts (codes " -u 1") (codes "-m") h)

add_summary_flag_once :
    (socket : Bool) (opts : Bytes)
    → add_summary_flag socket (add_summary_flag socket opts) ≡ add_summary_flag socket opts
unfolding contains has_prefix
add_summary_flag_once socket opts =
    ground (arith, contains_behind opts (codes " -u 1") (codes "-u") refl)

abbrev interval_key : Bytes
interval_key = codes "summary_interval"

abbrev wants_interval : Section → Bool
wants_interval s =
    bytes_eq s.section_name global_name && not (is_some (find interval_key s.options))

abbrev with_interval : Section → Section
with_interval s = record s { options = put interval_key (codes "1") s.options }

add_interval_if : (s : Section) → add_interval s ≡ (if wants_interval s then with_interval s else s)
unfolding add_interval
add_interval_if s = refl

wants-with_interval : (s : Section) → wants_interval (with_interval s) ≡ false
wants-with_interval s =
    rw
      (
        find-put interval_key interval_key (codes "1") s.options,
        (bytes_eq_iff interval_key interval_key).1 refl,
      )
      (ground arith)

either-interval :
    (b : Bool) (s : Section)
    → (b ≡ wants_interval s)
    → add_interval (if b then with_interval s else s) ≡ (if b then with_interval s else s)
either-interval true s h =
    add_interval_if (with_interval s)
    ∙ ap (λ b. if b then with_interval (with_interval s) else with_interval s)
        (wants-with_interval s)
either-interval false s h = add_interval_if s ∙ ap (λ b. if b then with_interval s else s) (sym h)

add_interval_once : (s : Section) → add_interval (add_interval s) ≡ add_interval s
add_interval_once s =
    ap add_interval (add_interval_if s)
    ∙ either-interval (wants_interval s) s refl
    ∙ sym (add_interval_if s)

map-add_interval_once :
    (ss : List Section) → map add_interval (map add_interval ss) ≡ map add_interval ss
map-add_interval_once [] = refl
map-add_interval_once (s ∷ ss) = rw (add_interval_once s, map-add_interval_once ss) refl

either-sections :
    (b : Bool) (ss : List Section)
    → (if b
        then (if b then ss else map add_interval ss)
        else map add_interval (if b then ss else map add_interval ss))
      ≡ (if b then ss else map add_interval ss)
either-sections true ss = refl
either-sections false ss = map-add_interval_once ss

is_empty-flags :
    (socket : Bool) (c : ℕ) (s : Bytes)
    → is_empty (add_summary_flag socket (add_message_flag (c ∷ s))) ≡ false
unfolding add_message_flag
is_empty-flags socket c s = ground arith

flags_once :
    (socket : Bool) (opts : Bytes)
    → add_summary_flag socket (add_message_flag (add_summary_flag socket (add_message_flag opts)))
      ≡ add_summary_flag socket (add_message_flag opts)
flags_once socket opts =
    let has =
      add_summary_flag_keeps socket (add_message_flag opts) (contains-add_message_flag opts) in
    ap (add_summary_flag socket) (add_message_flag_has _ has)
    ∙ add_summary_flag_once socket (add_message_flag opts)

phc2sys_once :
    (socket : Bool) (opts : Bytes)
    → let made =
        (if is_empty opts then opts else add_summary_flag socket (add_message_flag opts)) in
      (if is_empty made then made else add_summary_flag socket (add_message_flag made)) ≡ made
phc2sys_once socket [] = refl
phc2sys_once socket (c ∷ s) = rw (is_empty-flags socket c s) (flags_once socket (c ∷ s))

-- The flags are added once: on the options and the sections that it has made, the function changes
-- nothing.
pub add_flags_for_monitor_once :
    (p : Process) (socket : Bool) (opts : Option Bytes) (sections : List Section)
    → add_flags_for_monitor p socket
        ((add_flags_for_monitor p socket opts sections).0)
        ((add_flags_for_monitor p socket opts sections).1)
      ≡ add_flags_for_monitor p socket opts sections
unfolding add_flags_for_monitor
add_flags_for_monitor_once ptp4l socket none sections = refl
add_flags_for_monitor_once ptp4l socket (some opts) sections =
    rw (add_message_flag_has _ (contains-add_message_flag opts)) (
      ap (λ ss. (some (add_message_flag opts), ss))
        (either-sections (contains (add_message_flag opts) (codes "--summary_interval")) sections))
add_flags_for_monitor_once phc2sys socket none sections = refl
add_flags_for_monitor_once phc2sys socket (some opts) sections =
    ap (λ o. (some o, sections)) (phc2sys_once socket opts)
add_flags_for_monitor_once ts2phc socket opts sections = refl
add_flags_for_monitor_once other_process socket opts sections = refl
