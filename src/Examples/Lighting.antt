-- ===== src/Examples/Lighting.antt =====
-- The light.
use openathan.Base.{◌≡◌, refl, pos, true, false, none, some, replicate, ◌∷◌}
use mathlib.Core.Option
use openathan.Scheduler.{Event}
use openathan.Lights.{LightSettings}
use openathan.Lights.Mode.{LightInputs}
use openathan.Lights.Schedule.{LightSchedule, next, next_event}
use openathan.Lights.Schedule.Next.{IsNext, next-IsNext, next_event-next}

abbrev lit : LightSettings
lit = record { enabled = true; brightness_percent = 3 }

abbrev before_prayer : LightInputs
before_prayer = record {
  maintenance = false;
  fault = false;
  setup_complete = true;
  clock_ready = true;
  playing = false;
  next_utc = some (pos 10_000);
  utc = pos 5_000;
}

-- Two of the fifteen times are left.
abbrev evening : LightSchedule
evening = record {
  times = none ∷ some (pos 100) ∷ some (pos 900) ∷ some (pos 500) ∷ replicate 11 none;
  previous_isha = none;
  following_fajr = none;
  first_day = pos 19_782;
  enabled = record {
    of_fajr = true;
    of_dhuhr = true;
    of_asr = true;
    of_maghrib = true;
    of_isha = true;
  };
}

next-IsNext_example : IsNext (pos 400) evening.times (some (pos 500))
unfolding next
next-IsNext_example = next-IsNext evening (pos 400)

next_event-next_example :
    Option.map Event.utc (next_event evening (pos 400)) ≡ next evening (pos 400)
next_event-next_example = next_event-next evening (pos 400) refl
