-- ===== src/Receiver/Report/Leaps.antt =====
-- A report of the leap seconds, read by ExtractLeapSec (pkg/ublox/ublox.go).
use np_linuxptp_daemon.Base.{ℕ, ◌%◌, ◌≡◌, refl, ap, ◌∙◌, List, [], ◌∷◌, none, some, arith, All}
use np_linuxptp_daemon.Strings.{Bytes, codes}
use np_linuxptp_daemon.Strings.Fields.{fields, join, IsWord, fields-join}
use np_linuxptp_daemon.Strings.Number.{
  format_nat, format_int, uint_value-format_nat, int_value-format_int,
}
use np_linuxptp_daemon.Leap.Indication.{TimeLs}
use np_linuxptp_daemon.Receiver.Report.{
  no_leaps, Entry, entry_of, src_of_curr, curr, src_of_change, change, time_to_event, gps_week,
  gps_day, flags, set_entry, and_fields, leap_fields, extract_leap_sec,
}
use np_linuxptp_daemon.Receiver.Report.Message.{
  InRange, Frame, words1, words2, words3, words4, leap_report, entry_of-format_nat,
  entry_of-format_int, words, other_words, words1-IsWord, words2-IsWord, words3-IsWord,
  words4-IsWord,
}

module _ (base0_value : Bytes → ℕ) where
  -- A word and its value.
  pair :
      (word v : Bytes) (e : Entry) (rest : List Bytes) (d : TimeLs)
      → entry_of word ≡ some e
      → entry_of v ≡ none
      → leap_fields base0_value (word ∷ v ∷ rest) d
        ≡ leap_fields base0_value rest (set_entry base0_value e v d)
  unfolding leap_fields
  pair word v e rest d is_word is_value = rw (is_word, is_value) refl

  -- A field that is not read.
  skip :
      (word : Bytes) (rest : List Bytes) (d : TimeLs)
      → entry_of word ≡ none
      → leap_fields base0_value (word ∷ rest) d ≡ leap_fields base0_value rest d
  unfolding leap_fields
  skip word rest d other = rw other refl

  skip_nat :
      (n : ℕ) (rest : List Bytes) (d : TimeLs)
      → leap_fields base0_value (format_nat n ∷ rest) d ≡ leap_fields base0_value rest d
  skip_nat n rest d = skip (format_nat n) rest d (entry_of-format_nat n)

  -- The leap seconds behind each line.
  abbrev after1 : TimeLs → TimeLs
  after1 d = record no_leaps { src_of_curr_ls = d.src_of_curr_ls }

  abbrev after2 : TimeLs → TimeLs
  after2 d = record (after1 d) {
    curr_ls = d.curr_ls;
    src_of_ls_change = d.src_of_ls_change;
    ls_change = d.ls_change;
    time_to_ls_event = d.time_to_ls_event;
  }

  abbrev after3 : TimeLs → TimeLs
  after3 d = record (after2 d) {
    date_of_ls_gps_wn = d.date_of_ls_gps_wn;
    date_of_ls_gps_dn = d.date_of_ls_gps_dn;
  }

  leap_fields-words1 :
      (d : TimeLs) (f : Frame)
      → InRange d
      → leap_fields base0_value (words1 d f) no_leaps ≡ some (after1 d)
  unfolding leap_fields set_entry
  leap_fields-words1 d f r =
      skip (codes "iTOW") _ _ other_words.0
      ∙ skip_nat f.itow _ _
      ∙ skip (codes "version") _ _ other_words.1
      ∙ skip_nat f.version _ _
      ∙ skip (codes "reserved2") _ _ other_words.2
      ∙ skip_nat f.reserved1.0 _ _
      ∙ skip_nat f.reserved1.1 _ _
      ∙ skip_nat f.reserved1.2 _ _
      ∙ pair (codes "srcOfCurrLs") (format_nat d.src_of_curr_ls) src_of_curr [] _ words.0
          (entry_of-format_nat _)
      ∙ rw (uint_value-format_nat 8 d.src_of_curr_ls (omega (arith, r.src_of_curr_ls))) refl

  leap_fields-words2 :
      (d : TimeLs) → InRange d → leap_fields base0_value (words2 d) (after1 d) ≡ some (after2 d)
  unfolding leap_fields set_entry
  leap_fields-words2 d r =
      pair (codes "currLs") (format_int d.curr_ls) curr _ _ words.1 (entry_of-format_int _)
      ∙ pair (codes "srcOfLsChange") (format_nat d.src_of_ls_change) src_of_change _ _ words.2
          (entry_of-format_nat _)
      ∙ pair (codes "lsChange") (format_int d.ls_change) change _ _ words.3 (entry_of-format_int _)
      ∙ pair (codes "timeToLsEvent") (format_int d.time_to_ls_event) time_to_event [] _ words.4
          (entry_of-format_int _)
      ∙ rw
          (
            int_value-format_int 8 d.curr_ls (omega arith) r.curr_ls,
            uint_value-format_nat 8 d.src_of_ls_change (omega (arith, r.src_of_ls_change)),
            int_value-format_int 8 d.ls_change (omega arith) r.ls_change,
            int_value-format_int 32 d.time_to_ls_event (omega arith) r.time_to_ls_event,
          )
          refl

  leap_fields-words3 :
      (d : TimeLs) (f : Frame)
      → InRange d
      → leap_fields base0_value (words3 d f) (after2 d) ≡ some (after3 d)
  unfolding leap_fields set_entry
  leap_fields-words3 d f r =
      let small : d.date_of_ls_gps_dn % 256 ≡ d.date_of_ls_gps_dn =
        omega (arith, r.date_of_ls_gps_dn) in
      pair (codes "dateOfLsGpsWn") (format_nat d.date_of_ls_gps_wn) gps_week _ _ words.5
        (entry_of-format_nat _)
      ∙ pair (codes "dateOfLsGpsDn") (format_nat d.date_of_ls_gps_dn) gps_day _ _ words.6
          (entry_of-format_nat _)
      ∙ skip (codes "reserved2") _ _ other_words.2
      ∙ skip_nat f.reserved2.0 _ _
      ∙ skip_nat f.reserved2.1 _ _
      ∙ skip_nat f.reserved2.2 [] _
      ∙ rw
          (
            uint_value-format_nat 16 d.date_of_ls_gps_wn (omega (arith, r.date_of_ls_gps_wn)),
            uint_value-format_nat 16 d.date_of_ls_gps_dn (omega (arith, r.date_of_ls_gps_dn)),
            small,
          )
          refl

  leap_fields-words4 :
      (d : TimeLs) (flag_word : Bytes)
      → base0_value (b'0' ∷ flag_word) ≡ d.valid
      → entry_of flag_word ≡ none
      → leap_fields base0_value (words4 flag_word) (after3 d) ≡ some d
  unfolding leap_fields set_entry
  leap_fields-words4 d flag_word value other =
      pair (codes "valid") flag_word flags [] _ words.7 other ∙ rw value refl

  -- One line of a report, before others.
  read_line :
      (ws : List Bytes) (lines : List Bytes) (d d' : TimeLs)
      → All IsWord ws
      → leap_fields base0_value ws d ≡ some d'
      → extract_leap_sec base0_value (join ws ∷ lines) d ≡ extract_leap_sec base0_value lines d'
  unfolding extract_leap_sec fields
  read_line ws lines d d' h e =
      ap (λ o. and_fields base0_value o (extract_leap_sec base0_value lines))
        (ap (λ w. leap_fields base0_value w d) (fields-join ws h) ∙ e)

  -- What the receiver reports of the leap seconds is read back: a report in its four lines, with any
  -- time of the week, version and reserved bytes, where the fields are in the ranges of the message
  -- and the word of the flags is one that the parser with prefixes reads as the flags.
  pub extract_leap_sec-leap_report :
      (d : TimeLs) (f : Frame) (flag_word : Bytes)
      → InRange d
      → IsWord flag_word
      → entry_of flag_word ≡ none
      → base0_value (b'0' ∷ flag_word) ≡ d.valid
      → extract_leap_sec base0_value (leap_report d f flag_word) no_leaps ≡ some d
  unfolding extract_leap_sec leap_report
  extract_leap_sec-leap_report d f flag_word r word other value =
      read_line (words1 d f) (join (words2 d) ∷ join (words3 d f) ∷ join (words4 flag_word) ∷ []) _
        (after1 d) (words1-IsWord d f) (leap_fields-words1 d f r)
      ∙ read_line (words2 d) (join (words3 d f) ∷ join (words4 flag_word) ∷ []) _ (after2 d)
          (words2-IsWord d) (leap_fields-words2 d r)
      ∙ read_line (words3 d f) (join (words4 flag_word) ∷ []) _ (after3 d) (words3-IsWord d f)
          (leap_fields-words3 d f r)
      ∙ read_line (words4 flag_word) [] _ d (words4-IsWord flag_word word)
          (leap_fields-words4 d flag_word value other)
