-- ===== src/Leap/Tests.antt =====
-- The leap seconds of pkg/leap/leap-file.go at a concrete file and a concrete indication.
use np_linuxptp_daemon.Base.{
  ℕ, ◌≡◌, ◌≢◌, refl, Bool, true, false, not, ◌&&◌, ◌||◌, [], ◌∷◌, none, some, arith, leb, any, All,
  ◌≤◌, ◌+◌, ◌*◌,
}
use np_linuxptp_daemon.Base.Int.{pos, scale, wrap64, ◌+ℤ◌, ◌-ℤ◌}
use np_linuxptp_daemon.Strings.{Bytes, codes, is_space}
use np_linuxptp_daemon.Strings.Fields.{test-IsWord, join}
use np_linuxptp_daemon.Strings.Number.{parse_int, parse_nat}
use np_linuxptp_daemon.Leap.File.{LeapEvent, LeapFile, parsed, parse_leap_file, render_leap_data}
use np_linuxptp_daemon.Leap.File.RoundTrip.{
  IsPhrase, IsPrintable, IsPlain, is_special, parse_leap_file-render_leap_data,
}
use np_linuxptp_daemon.Leap.Calendar.{nanoseconds, time_of, seconds_of}
use np_linuxptp_daemon.Leap.Manager.{
  Manager, new_manager, last_event, update_leap_file, update_leap_configmap, populate_leap_data,
  updated_file,
}
use np_linuxptp_daemon.Leap.Manager.Hash.{IsHex, IsSha1}
use np_linuxptp_daemon.Leap.Manager.Stored.{file_of, populate-update_leap_file}
use np_linuxptp_daemon.Leap.Indication.{
  TimeLs, leap_sec_of, found, ignored, leap_result, process_leap_indication,
}
use np_linuxptp_daemon.Leap.Indication.Settles.{process_leap_indication-update_leap_file}
use np_linuxptp_daemon.Leap.Window.{is_leap_in_window, Around}
use np_linuxptp_daemon.Leap.Window.Once.{ticks, IsInWindow, ticks_once}

test-IsPlain : (s : Bytes) → any is_special s ≡ false → IsPlain s
test-IsPlain [] h = tt
test-IsPlain (c ∷ s) h = (ground arith, test-IsPlain s (ground arith))

is_hex : ℕ → Bool
is_hex c = (leb b'0' c && leb c b'9') || (leb b'a' c && leb c b'f')

test-IsHex : (s : Bytes) → any (λ c. not (is_hex c)) s ≡ false → All IsHex s
unfolding is_hex
test-IsHex [] h = tt
test-IsHex (c ∷ s) h = (ground arith, test-IsHex s (ground arith))

abbrev last_leap : LeapEvent
last_leap = record {
  leap_time = codes "3692217600";
  leap_sec = pos 37;
  comment = codes "# 1 Jan 2017";
}

abbrev file : LeapFile
file = record {
  expiration_time = codes "4291747200";
  update_time = codes "3913697179";
  leap_events = last_leap ∷ [];
  hash = codes "16edd0f0 3666784f";
}

comment-IsPhrase : IsPhrase (codes "# 1 Jan 2017")
unfolding join is_space
comment-IsPhrase = record {
  words = codes "#" ∷ codes "1" ∷ codes "Jan" ∷ codes "2017" ∷ [];
  are_words = (
    test-IsWord _ (λ h. cc) refl,
    (
      test-IsWord _ (λ h. cc) refl,
      (test-IsWord _ (λ h. cc) refl, (test-IsWord _ (λ h. cc) refl, tt)),
    ),
  );
  joined = refl;
  plain = test-IsPlain (codes "# 1 Jan 2017") refl;
}

hash-IsPhrase : IsPhrase (codes "16edd0f0 3666784f")
unfolding join is_space
hash-IsPhrase = record {
  words = codes "16edd0f0" ∷ codes "3666784f" ∷ [];
  are_words = (test-IsWord _ (λ h. cc) refl, (test-IsWord _ (λ h. cc) refl, tt));
  joined = refl;
  plain = test-IsPlain (codes "16edd0f0 3666784f") refl;
}

last_leap-reads : parse_int 64 (codes "3692217600") ≡ some (pos 3692217600)
unfolding parse_int parse_nat
last_leap-reads = refl

file-IsPrintable : IsPrintable file
unfolding is_space
file-IsPrintable = record {
  update_word = test-IsWord _ (λ h. cc) refl;
  update_plain = test-IsPlain file.update_time refl;
  expiration_word = test-IsWord _ (λ h. cc) refl;
  expiration_plain = test-IsPlain file.expiration_time refl;
  events = (
    record {
      time_word = test-IsWord _ (λ h. cc) refl;
      time_plain = test-IsPlain last_leap.leap_time refl;
      time = pos 3692217600;
      time_reads = last_leap-reads;
      fits = omega arith;
      phrase = comment-IsPhrase;
    },
    tt,
  );
  phrase = hash-IsPhrase;
}

parse_leap_file-render_leap_data_example : parse_leap_file (render_leap_data file) ≡ parsed file
parse_leap_file-render_leap_data_example = parse_leap_file-render_leap_data file file-IsPrintable

abbrev digest : Bytes → Bytes
digest s = codes "da39a3ee5e6b4b0d3255bfef95601890afd80709"

digest-IsSha1 : IsSha1 digest
unfolding is_hex
digest-IsSha1 = record { long = λ s. refl; hex = λ s. test-IsHex (digest s) refl }

abbrev manager : Manager
manager = record new_manager {
  leap_file = file;
  utc_offset = pos 37;
  utc_offset_time = pos (3692217600 * nanoseconds);
}

populate-update_leap_file_example :
    (n : Manager) × (update_leap_file digest
        (pos (3976214400 * nanoseconds))
        (pos 38)
        (pos (3913697300 * nanoseconds))
        manager
      ≡ some n)
    × (n.leap_file
        ≡ updated_file digest
            (pos (3976214400 * nanoseconds))
            (pos 38)
            (pos (3913697300 * nanoseconds))
            file)
    × (file_of (
          populate_leap_data digest "node"
            ((update_leap_configmap "node" (some []) true n).1)
            none
            true)
        ≡ some n.leap_file)
populate-update_leap_file_example =
    populate-update_leap_file digest "node" [] none true (pos (3976214400 * nanoseconds)) (pos 38)
      (pos (3913697300 * nanoseconds)) manager digest-IsSha1 (omega arith) file-IsPrintable
      (λ h. cc)

-- GPS says 18 leap seconds, none is scheduled, and the file says 36.
abbrev indication : TimeLs
indication = record {
  src_of_curr_ls = 2;
  curr_ls = pos 18;
  src_of_ls_change = 2;
  ls_change = pos 0;
  time_to_ls_event = pos 0;
  date_of_ls_gps_wn = 1929;
  date_of_ls_gps_dn = 7;
  valid = 3;
}

abbrev outdated : Manager
outdated = record manager {
  leap_file = record file { leap_events = record last_leap { leap_sec = pos 36 } ∷ [] };
}

abbrev present : ℕ
present = 3913697300 * nanoseconds

indication-found :
    process_leap_indication indication (pos present) outdated
    ≡ found (pos (3913697240 * nanoseconds)) (pos 37) (pos present)
unfolding process_leap_indication leap_sec_of leap_result time_of last_event parse_int parse_nat
    scale wrap64 ◌+ℤ◌ ◌-ℤ◌
indication-found = refl

indication-nonzero : leap_sec_of indication ≢ pos 0
unfolding leap_sec_of ◌+ℤ◌
indication-nonzero = λ h. cc

process_leap_indication-update_leap_file_example :
    (pos 37 ≡ leap_sec_of indication)
    × (pos present ≡ pos present)
    × (n : Manager) × (update_leap_file digest
          (pos (3913697240 * nanoseconds))
          (pos 37)
          (pos present)
          outdated
        ≡ some n)
    × (n.utc_offset ≡ leap_sec_of indication)
    × (process_leap_indication indication (pos (present + 1)) n ≡ ignored)
process_leap_indication-update_leap_file_example =
    process_leap_indication-update_leap_file digest indication (pos present) (pos (present + 1))
      outdated indication-nonzero indication-found

abbrev updated : Manager
updated = record outdated {
  leap_file =
      updated_file digest (pos (3913697240 * nanoseconds)) (pos 37) (pos present)
        outdated.leap_file;
  utc_offset_time = time_of (seconds_of (pos (3913697240 * nanoseconds)));
  utc_offset = pos 37;
}

-- An hour before the leap of the file; pmc says 36 and takes the settings.
abbrev around : Around
around = record {
  cm = none;
  accepts = true;
  now = pos (3692214000 * nanoseconds);
  settings = some (record {
    clock_class = 6;
    clock_accuracy = 33;
    offset_scaled_log_variance = 20061;
    time_properties = record {
      current_utc_offset = pos 36;
      current_utc_offset_valid = true;
      leap59 = false;
      leap61 = false;
      time_traceable = true;
      frequency_traceable = true;
      ptp_timescale = true;
      time_source = 32;
    };
  });
  set_works = true;
}

around-IsInWindow : IsInWindow manager around
unfolding is_leap_in_window last_event time_of parse_int parse_nat scale wrap64 ◌+ℤ◌ ◌-ℤ◌
around-IsInWindow = refl

ticks_once_example :
    (n : Manager) × (k : ℕ) × (ticks "node" (around ∷ around ∷ []) manager ≡ some (n, k))
    × (k ≤ 1)
    × (manager.pmc_leap_sent ≡ true → k ≡ 0)
ticks_once_example =
    ticks_once "node" (around ∷ around ∷ []) manager (around-IsInWindow, (around-IsInWindow, tt))
