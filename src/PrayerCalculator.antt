-- ===== src/PrayerCalculator.antt =====
-- lib/openathan-core/src/prayer_calculator.cpp and include/openathan/prayer_calculator.h, and
-- `DayCalculator::calculate` of scheduler.cpp. The astronomy is adhan-cpp's, which is a parameter.
pub mod Order
use openathan.Base.{
  ℕ, ◌-◌, ℤ, negsuc, pos, Bool, true, false, not, ◌&&◌, ◌||◌, Option, none, some, List, [], ◌∷◌,
  ltb, leb, ltb_ℤ, leb_ℤ, ◌==◌, if◌then◌else◌,
}
use mathlib.Core.Option
use openathan.Calendar.{CivilDate, valid_date}
use openathan.Double.{is_finite, abs_le_90, abs_le_180}
use openathan.Scheduler.{Settings, PrayerDay, times_of, DayCalculator}

-- `method` and `high_latitude` are the numbers under the enums.
pub record PrayerRequest : Type 0 where
  pub latitude : ℕ
  pub longitude : ℕ
  pub date : CivilDate
  pub method : ℕ
  pub hanafi : Bool
  pub high_latitude : ℕ
  pub offsets : List ℤ

-- What is used of adhan-cpp: the recommended rule of a place; the instants of a day by the method's
-- place in the table, the madhab, the rule, the adjustments, the place and the date, or none for an
-- exception; and the seconds of an instant.
pub record Adhan (Instant : Type 0) : Type 0 where
  pub recommended : ℕ → ℕ → ℕ
  pub prayer_times : ℕ → Bool → ℕ → List ℤ → ℕ → ℕ → CivilDate → Option (List (Option Instant))
  pub seconds : Instant → ℤ

-- The loop over the offsets.
unfoldable pub offsets_allowed : List ℤ → Bool
offsets_allowed [] = true
offsets_allowed (o ∷ os) = not (ltb_ℤ o (negsuc 119) || ltb_ℤ (pos 120) o) && offsets_allowed os

-- The tests before the `try` block. `valid_date` is the same test of the date.
unfoldable pub request_refused : PrayerRequest → Bool
unfolding is_finite abs_le_90 abs_le_180 valid_date offsets_allowed
request_refused r =
    not (is_finite r.latitude)
    || not (is_finite r.longitude)
    || not (abs_le_90 r.latitude)
    || not (abs_le_180 r.longitude)
    || not (valid_date r.date)
    || not (ltb r.method 12)
    || ltb 3 r.high_latitude
    || not (offsets_allowed r.offsets)

-- The last loop, with `previous`.
unfoldable pub in_order : Option ℤ → List (Option ℤ) → Bool
in_order previous [] = true
in_order previous (none ∷ rest) = in_order previous rest
in_order none (some t ∷ rest) = in_order (some t) rest
in_order (some p) (some t ∷ rest) = not (leb_ℤ t p) && in_order (some t) rest

abbrev pub entry : {A : Type 0} → List (Option A) → (A → ℤ) → ℕ → Option ℤ
entry [] f i = none
entry (o ∷ os) f i = if i == 0 then Option.map f o else entry os f (i - 1)

module _ {Instant : Type 0} (adhan : Adhan Instant) where
  abbrev pub day_of : List (Option Instant) → PrayerDay
  day_of times = record {
    fajr_utc = entry times adhan.seconds 0;
    sunrise_utc = entry times adhan.seconds 1;
    dhuhr_utc = entry times adhan.seconds 2;
    asr_utc = entry times adhan.seconds 3;
    maghrib_utc = entry times adhan.seconds 4;
    isha_utc = entry times adhan.seconds 5;
  }

  unfoldable pub accept_day : PrayerDay → Option PrayerDay
  unfolding in_order
  accept_day d = if in_order none (times_of d) then some d else none

  -- The `try` block; a false answer leaves the day empty.
  unfoldable pub calculate_allowed : PrayerRequest → Option PrayerDay
  unfolding accept_day
  calculate_allowed r =
      let rule =
        if r.high_latitude == 3
        then adhan.recommended r.latitude r.longitude
        else r.high_latitude in
      elim (adhan.prayer_times r.method r.hanafi rule r.offsets r.latitude r.longitude r.date) [
        | none ↦ none
        | some times ↦ accept_day (day_of times)
      ]

  unfoldable pub calculate_prayers : PrayerRequest → Option PrayerDay
  unfolding request_refused calculate_allowed
  calculate_prayers r = if request_refused r then none else calculate_allowed r

  abbrev pub request_of : Settings → CivilDate → PrayerRequest
  request_of s d = record {
    latitude = s.latitude;
    longitude = s.longitude;
    date = d;
    method = s.method;
    hanafi = s.hanafi;
    high_latitude = s.high_latitude;
    offsets = s.offsets;
  }

  unfoldable pub adhan_calculator : DayCalculator
  unfolding calculate_prayers
  adhan_calculator s d = calculate_prayers (request_of s d)
