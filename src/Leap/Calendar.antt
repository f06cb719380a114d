-- ===== src/Leap/Calendar.antt =====
-- Times (package time of Go) as pkg/leap/leap-file.go uses them: nanoseconds since the start of
-- 1900, and the day, the month and the year of a time.
use np_linuxptp_daemon.Base.{
  ℕ, ◌+◌, ◌-◌, ◌*◌, ◌/◌, ◌%◌, ◌≡◌, refl, List, [], ◌∷◌, ltb, leb, if◌then◌else◌, get_elem?,
}
use mathlib.Core.Option
use np_linuxptp_daemon.Base.Int.{ℤ, pos, pos_part, scale, wrap64, clamp64, quot}
use np_linuxptp_daemon.Strings.{Bytes, codes}
use np_linuxptp_daemon.Strings.Fields.{join}
use np_linuxptp_daemon.Strings.Number.{format_nat}

-- A `time.Time` as the nanoseconds since the start of 1900, and a `time.Duration` in nanoseconds.
abbrev pub nanoseconds : ℕ
nanoseconds = 1000000000

-- `startTime.Add(time.Second * time.Duration(s))`: the product is an int64.
unfoldable pub time_of : ℤ → ℤ
time_of s = wrap64 (scale s nanoseconds)

-- `int(t.Sub(startTime).Seconds())`: the difference stops at the ends of an int64. The rounding of
-- the seconds as a float64 within the last microsecond of a second is left out.
unfoldable pub seconds_of : ℤ → ℤ
seconds_of t = quot (clamp64 t) nanoseconds

-- The day, the month and the year of a number of days since the first of March of year 0.
pub record Date : Type 0 where
  pub day : ℕ
  pub month : ℕ
  pub year : ℕ

unfoldable pub date_of_days : ℕ → Date
date_of_days z =
    let era = z / 146097 in
    let doe = z % 146097 in
    let yoe = (doe + doe / 36524 - doe / 1460 - doe / 146096) / 365 in
    let doy = doe - (365 * yoe + yoe / 4 - yoe / 100) in
    let mp = (5 * doy + 2) / 153 in
    let month = if ltb mp 10 then mp + 3 else mp - 9 in
    record {
      day = doy - (153 * mp + 2) / 5 + 1;
      month = month;
      year = yoe + era * 400 + (if leb month 2 then 1 else 0);
    }

-- The date of a time from 1900 on.
unfoldable pub date_of : ℤ → Date
unfolding date_of_days
date_of t = date_of_days (pos_part t / (nanoseconds * 86400) + 693901)

abbrev pub month_names : List Bytes
month_names =
    codes "Jan"
    ∷ codes "Feb"
    ∷ codes "Mar"
    ∷ codes "Apr"
    ∷ codes "May"
    ∷ codes "Jun"
    ∷ codes "Jul"
    ∷ codes "Aug"
    ∷ codes "Sep"
    ∷ codes "Oct"
    ∷ codes "Nov"
    ∷ codes "Dec"
    ∷ []

-- `t.Month().String()[:3]`
unfoldable pub month_name : ℕ → Bytes
month_name m = Option.get_or (get_elem? month_names (m - 1)) (codes "%!M")

-- `fmt.Sprintf("# %v %v %v", …)`
unfoldable pub date_comment : ℤ → Bytes
unfolding month_name
date_comment t =
    let d = date_of t in
    join (codes "#" ∷ format_nat d.day ∷ month_name d.month ∷ format_nat d.year ∷ [])

new_year_2017 : date_comment (time_of (pos 3692217600)) ≡ codes "# 1 Jan 2017"
unfolding date_comment date_of time_of join scale wrap64 format_nat
new_year_2017 = refl

leap_day : date_comment (time_of (pos 3918153600)) ≡ codes "# 29 Feb 2024"
unfolding date_comment date_of time_of join scale wrap64 format_nat
leap_day = refl
