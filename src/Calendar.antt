-- ===== src/Calendar.antt =====
-- The civil dates of lib/openathan-core/src/scheduler.cpp. The source takes them from
-- `std::chrono` (`year_month_day`, `sys_days`), whose proleptic Gregorian calendar is written out
-- here: a year counts from -40000, far below the years that `std::chrono` has, so that all
-- divisions are between numbers that are not negative.
use openathan.Base.{
  ℕ, ◌+◌, ◌-◌, ◌*◌, ◌/◌, ◌%◌, ◌≡◌, refl, ℤ, pos, pos_part, ◌+ℤ◌, ◌-ℤ◌, leb_ℤ, Bool, not, ◌&&◌, ◌||◌,
  leb, ◌==◌, if◌then◌else◌,
}

pub record CivilDate : Type 0 where
  pub year : ℤ
  pub month : ℕ
  pub day : ℕ

abbrev pub date : ℕ → ℕ → ℕ → CivilDate
date y m d = record { year = pos y; month = m; day = d }

-- A hundred cycles of 400 years, and the days in them.
abbrev shift_years : ℕ
shift_years = 40_000

abbrev shift_days : ℕ
shift_days = 14_609_700

unfoldable pub is_leap : ℕ → Bool
is_leap y = y % 4 == 0 && (not (y % 100 == 0) || y % 400 == 0)

unfoldable pub days_in_month : ℕ → ℕ → ℕ
unfolding is_leap
days_in_month y m =
    if m == 2
    then (if is_leap y then 29 else 28)
    else if m == 4 || m == 6 || m == 9 || m == 11
    then 30
    else 31

-- `valid_date`, with `year_month_day::ok`.
unfoldable pub valid_date : CivilDate → Bool
unfolding days_in_month
valid_date d =
    leb_ℤ (pos 1900) d.year
    && leb_ℤ d.year (pos 2100)
    && leb 1 d.month
    && leb d.month 12
    && leb 1 d.day
    && leb d.day 31
    && leb d.day (days_in_month (pos_part d.year) d.month)

-- Days from 0000-03-01 to the first of March of year `y`, and from there to the date.
abbrev days_before_year : ℕ → ℕ
days_before_year y = y * 365 + y / 4 - y / 100 + y / 400

abbrev days_before_month : ℕ → ℕ
days_before_month march = (153 * march + 2) / 5

-- Days since 1970-01-01, of a date whose month is from 1 to 12 and whose day is from 1.
unfoldable pub day_number : CivilDate → ℤ
unfolding ◌+ℤ◌ ◌-ℤ◌
day_number d =
    let shifted = pos_part (d.year +ℤ pos shift_years) in
    let y = if leb d.month 2 then shifted - 1 else shifted in
    let march = if leb d.month 2 then d.month + 9 else d.month - 3 in
    pos (days_before_year y + days_before_month march + d.day - 1) -ℤ pos (shift_days + 719_468)

-- The date from a day counted from 1 March of year 0 of the shifted years.
date_of_days : ℕ → CivilDate
unfolding ◌-ℤ◌
date_of_days z =
    let era = z / 146_097 in
    let doe = z % 146_097 in
    let yoe = (doe - doe / 1460 + doe / 36_524 - doe / 146_096) / 365 in
    let doy = doe - (365 * yoe + yoe / 4 - yoe / 100) in
    let march = (5 * doy + 2) / 153 in
    let y = yoe + era * 400 in
    let year = if leb 10 march then y + 1 else y in
    record {
      year = pos year -ℤ pos shift_years;
      month = if leb 10 march then march - 9 else march + 3;
      day = doy - days_before_month march + 1;
    }

unfoldable pub civil_date : ℤ → CivilDate
unfolding date_of_days ◌+ℤ◌
civil_date serial = date_of_days (pos_part (serial +ℤ pos (shift_days + 719_468)))

epoch : day_number (date 1970 1 1) ≡ pos 0
unfolding day_number
epoch = refl

leap_day : day_number (date 2024 2 29) ≡ pos 19782
unfolding day_number
leap_day = refl

leap_day_back : civil_date (pos 19782) ≡ date 2024 2 29
unfolding civil_date
leap_day_back = refl

before_epoch : civil_date (day_number (date 1899 12 31)) ≡ date 1899 12 31
unfolding civil_date day_number
before_epoch = refl
