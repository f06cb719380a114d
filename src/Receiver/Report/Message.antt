-- ===== src/Receiver/Report/Message.antt =====
-- A report of the leap seconds, as the receiver of pkg/ublox/ublox.go prints it.
use np_linuxptp_daemon.Base.{
  ℕ, suc, ◌^◌, ◌≤◌, ◌<◌, ◌≡◌, refl, List, [], ◌∷◌, none, some, arith, All,
}
use np_linuxptp_daemon.Base.Int.{ℤ, pos, negsuc}
use np_linuxptp_daemon.Strings.{Bytes, codes, bytes_eq, is_space}
use np_linuxptp_daemon.Strings.Fields.{join, IsWord, test-IsWord}
use np_linuxptp_daemon.Strings.Number.{
  format_nat, format_int, Fits, IsDigit, format_nat-IsDigit, format_nat-IsWord, format_int-IsWord,
}
use np_linuxptp_daemon.Leap.Indication.{TimeLs}
use np_linuxptp_daemon.Receiver.Report.{
  entry_of, src_of_curr, curr, src_of_change, change, time_to_event, gps_week, gps_day, flags,
}

-- The ranges of the fields in the message.
pub record InRange (d : TimeLs) : Type 0 where
  pub src_of_curr_ls : d.src_of_curr_ls < 256
  pub curr_ls : Fits 8 d.curr_ls
  pub src_of_ls_change : d.src_of_ls_change < 256
  pub ls_change : Fits 8 d.ls_change
  pub time_to_ls_event : Fits 32 d.time_to_ls_event
  pub date_of_ls_gps_wn : d.date_of_ls_gps_wn < 2 ^ 16
  pub date_of_ls_gps_dn : d.date_of_ls_gps_dn < 256

-- The other fields of the message: the time of the week, the version, and the reserved bytes before
-- and behind the date.
pub record Frame : Type 0 where
  pub itow : ℕ
  pub version : ℕ
  pub reserved1 : ℕ × ℕ × ℕ
  pub reserved2 : ℕ × ℕ × ℕ

-- The words of the four lines of a report; the flags are printed by another convention.
abbrev pub words1 : TimeLs → Frame → List Bytes
words1 d f =
    codes "iTOW"
    ∷ format_nat f.itow
    ∷ codes "version"
    ∷ format_nat f.version
    ∷ codes "reserved2"
    ∷ format_nat f.reserved1.0
    ∷ format_nat f.reserved1.1
    ∷ format_nat f.reserved1.2
    ∷ codes "srcOfCurrLs"
    ∷ format_nat d.src_of_curr_ls
    ∷ []

abbrev pub words2 : TimeLs → List Bytes
words2 d =
    codes "currLs"
    ∷ format_int d.curr_ls
    ∷ codes "srcOfLsChange"
    ∷ format_nat d.src_of_ls_change
    ∷ codes "lsChange"
    ∷ format_int d.ls_change
    ∷ codes "timeToLsEvent"
    ∷ format_int d.time_to_ls_event
    ∷ []

abbrev pub words3 : TimeLs → Frame → List Bytes
words3 d f =
    codes "dateOfLsGpsWn"
    ∷ format_nat d.date_of_ls_gps_wn
    ∷ codes "dateOfLsGpsDn"
    ∷ format_nat d.date_of_ls_gps_dn
    ∷ codes "reserved2"
    ∷ format_nat f.reserved2.0
    ∷ format_nat f.reserved2.1
    ∷ format_nat f.reserved2.2
    ∷ []

abbrev pub words4 : Bytes → List Bytes
words4 flag_word = codes "valid" ∷ flag_word ∷ []

-- The report in the four lines that Test_ExtractLeapSec has.
unfoldable pub leap_report : TimeLs → Frame → Bytes → List Bytes
unfolding join
leap_report d f flag_word =
    join (words1 d f) ∷ join (words2 d) ∷ join (words3 d f) ∷ join (words4 flag_word) ∷ []

entry_of_digit : (c : ℕ) (s : Bytes) → c ≤ b'9' → entry_of (c ∷ s) ≡ none
unfolding entry_of bytes_eq
entry_of_digit c s h = ground arith

entry_of-IsDigit : (s : Bytes) → All IsDigit s → entry_of s ≡ none
entry_of-IsDigit [] h = unfold entry_of bytes_eq in refl
entry_of-IsDigit (c ∷ s) h = entry_of_digit c s h.0.1

pub entry_of-format_nat : (n : ℕ) → entry_of (format_nat n) ≡ none
entry_of-format_nat n = entry_of-IsDigit (format_nat n) (format_nat-IsDigit n)

pub entry_of-format_int : (z : ℤ) → entry_of (format_int z) ≡ none
unfolding format_int
entry_of-format_int (pos n) = entry_of-format_nat n
entry_of-format_int (negsuc n) = entry_of_digit b'-' (format_nat (suc n)) (omega arith)

pub words :
    (entry_of (codes "srcOfCurrLs") ≡ some src_of_curr)
    × (entry_of (codes "currLs") ≡ some curr)
    × (entry_of (codes "srcOfLsChange") ≡ some src_of_change)
    × (entry_of (codes "lsChange") ≡ some change)
    × (entry_of (codes "timeToLsEvent") ≡ some time_to_event)
    × (entry_of (codes "dateOfLsGpsWn") ≡ some gps_week)
    × (entry_of (codes "dateOfLsGpsDn") ≡ some gps_day)
    × (entry_of (codes "valid") ≡ some flags)
unfolding entry_of bytes_eq
words = (refl, refl, refl, refl, refl, refl, refl, refl)

pub other_words :
    (entry_of (codes "iTOW") ≡ none)
    × (entry_of (codes "version") ≡ none)
    × (entry_of (codes "reserved2") ≡ none)
unfolding entry_of bytes_eq
other_words = (refl, refl, refl)

pub words1-IsWord : (d : TimeLs) (f : Frame) → All IsWord (words1 d f)
unfolding is_space
words1-IsWord d f = (
  test-IsWord _ (λ h. cc) refl,
  (
    format_nat-IsWord _,
    (
      test-IsWord _ (λ h. cc) refl,
      (
        format_nat-IsWord _,
        (
          test-IsWord _ (λ h. cc) refl,
          (
            format_nat-IsWord _,
            (
              format_nat-IsWord _,
              (format_nat-IsWord _, (test-IsWord _ (λ h. cc) refl, (format_nat-IsWord _, tt))),
            ),
          ),
        ),
      ),
    ),
  ),
)

pub words2-IsWord : (d : TimeLs) → All IsWord (words2 d)
unfolding is_space
words2-IsWord d = (
  test-IsWord _ (λ h. cc) refl,
  (
    format_int-IsWord _,
    (
      test-IsWord _ (λ h. cc) refl,
      (
        format_nat-IsWord _,
        (
          test-IsWord _ (λ h. cc) refl,
          (format_int-IsWord _, (test-IsWord _ (λ h. cc) refl, (format_int-IsWord _, tt))),
        ),
      ),
    ),
  ),
)

pub words3-IsWord : (d : TimeLs) (f : Frame) → All IsWord (words3 d f)
unfolding is_space
words3-IsWord d f = (
  test-IsWord _ (λ h. cc) refl,
  (
    format_nat-IsWord _,
    (
      test-IsWord _ (λ h. cc) refl,
      (
        format_nat-IsWord _,
        (
          test-IsWord _ (λ h. cc) refl,
          (format_nat-IsWord _, (format_nat-IsWord _, (format_nat-IsWord _, tt))),
        ),
      ),
    ),
  ),
)

pub words4-IsWord : (flag_word : Bytes) → IsWord flag_word → All IsWord (words4 flag_word)
unfolding is_space
words4-IsWord flag_word h = (test-IsWord _ (λ h. cc) refl, (h, tt))
