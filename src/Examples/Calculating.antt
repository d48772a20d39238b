-- ===== src/Examples/Calculating.antt =====
-- The prayer calculator over a clockwork in place of adhan-cpp.
use openathan.Base.{◌≡◌, refl, ℤ, pos, ◌<ℤ◌, some, [], ◌∷◌, none, arith}
use openathan.Calendar.{date, valid_date}
use openathan.Scheduler.{PrayerDay}
use openathan.Scheduler.Valid.{default_settings, valid_settings}
use openathan.PrayerCalculator.{
  Adhan, calculate_prayers, calculate_allowed, adhan_calculator, request_of,
}
use openathan.PrayerCalculator.Order.{calculate_prayers-lt, adhan_calculator-valid}

-- A day without a Fajr, at a high latitude.
abbrev clockwork : Adhan ℤ
clockwork = record {
  recommended = λ lat long. 0;
  prayer_times = λ method hanafi rule offsets lat long day. some (
      none
      ∷ some (pos 21_600)
      ∷ some (pos 43_200)
      ∷ some (pos 54_000)
      ∷ some (pos 64_800)
      ∷ some (pos 72_000)
      ∷ []);
  seconds = λ t. t;
}

abbrev calculated : PrayerDay
calculated = record {
  fajr_utc = none;
  sunrise_utc = some (pos 21_600);
  dhuhr_utc = some (pos 43_200);
  asr_utc = some (pos 54_000);
  maghrib_utc = some (pos 64_800);
  isha_utc = some (pos 72_000);
}

calculate_prayers-lt_example : pos 21_600 <ℤ pos 72_000
unfolding calculate_prayers
calculate_prayers-lt_example =
    calculate_prayers-lt clockwork (request_of clockwork default_settings (date 2024 2 29))
      calculated 1 5 (pos 21_600) (pos 72_000) refl (omega arith) refl refl

adhan_calculator-valid_example :
    adhan_calculator clockwork default_settings (date 2024 2 29)
    ≡ calculate_allowed clockwork (request_of clockwork default_settings (date 2024 2 29))
unfolding valid_settings valid_date
adhan_calculator-valid_example =
    adhan_calculator-valid clockwork default_settings (date 2024 2 29) refl refl
