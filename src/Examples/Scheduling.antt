-- ===== src/Examples/Scheduling.antt =====
-- The scheduler on four days of one calculator.
use openathan.Base.{
  ◌≤◌, arith, ℕ, ◌≡◌, ◌+◌, ◌*◌, refl, ℤ, pos, ◌+ℤ◌, ◌-ℤ◌, ◌*ℤ◌, true, Option, none, some, List, [],
  ◌∷◌, take, drop,
}
use openathan.Calendar.{CivilDate, date, day_number, civil_date}
use openathan.Playback.{Track}
use openathan.Examples.{cell, speaker, cell-IsDurable, cell-IsAtomic}
use openathan.Scheduler.Rebuild.{timetable}
use openathan.Scheduler.Timetable.{Stands}
use openathan.Scheduler.Timetable.Complete.{timetable_complete, timetable_sound}
use openathan.Scheduler.Timetable.Origins.{Carries}
use mathlib.Core.List.{Memᴰ}
use openathan.Scheduler.{
  time_at, Prayer, isha, PrayerDay, ScheduleConflict, Event, DayCalculator, DurableState,
  ClockSample,
}
use openathan.Scheduler.Valid.{default_settings}
use openathan.Scheduler.Machine.{
  tick, tick_built, rebuild, is_continuous, begin, skip_next, skip_rest,
}
use openathan.Scheduler.System.{
  System, AllApart, booted, after_tick, request_of, ticks, Runs, start, step,
}
use openathan.Scheduler.Tick.{Change}
use openathan.Scheduler.Once.{tick-Plays, tick-Change}
use openathan.Scheduler.Consume.{consumed, is_timely, is_skipped}
use openathan.Scheduler.Apart.{all_apart}
use openathan.Scheduler.Due.{tick-Starts, Starts, events_for}
use openathan.Scheduler.NoRepeat.{Runs-AllApart}

abbrev at_hour : CivilDate → ℕ → Option ℤ
at_hour d h = some (day_number d *ℤ 86_400 +ℤ pos (h * 3600))

-- Fajr at five, sunrise at six, and so on; every day.
abbrev pub clockwork : DayCalculator
clockwork settings d = some (record {
  fajr_utc = at_hour d 5;
  sunrise_utc = at_hour d 6;
  dhuhr_utc = at_hour d 12;
  asr_utc = at_hour d 15;
  maghrib_utc = at_hour d 18;
  isha_utc = at_hour d 20;
})

-- 2024-02-29, `s` seconds into the day.
abbrev sample : ℕ → ClockSample
sample s = record {
  valid = true;
  utc = pos (19_782 * 86_400 + s);
  monotonic_ms = s * 1000;
  local_date = date 2024 2 29;
  subsecond_ms = 0;
}

abbrev device : System (Option DurableState) (List Track)
device = booted cell speaker clockwork none [] default_settings

abbrev armed : System (Option DurableState) (List Track)
armed = after_tick cell speaker clockwork device (sample 17_999)

-- What a run computes with.
running : Unit {0}
unfolding tick tick_built rebuild is_continuous begin skip_next skip_rest booted ◌*ℤ◌ ◌+ℤ◌ ◌-ℤ◌
running = tt

abbrev pub fajr_event : Event
fajr_event = record {
  key = record { day = pos 19_782; prayer = Prayer.fajr };
  utc = pos (19_782 * 86_400 + 18_000);
  enabled = true;
  shared_with = none;
}

fajr_played : request_of cell speaker clockwork armed (sample 18_000) ≡ some fajr_event
unfolding running
fajr_played = refl

abbrev heard : System (Option DurableState) (List Track)
heard = after_tick cell speaker clockwork armed (sample 18_000)

abbrev noon : System (Option DurableState) (List Track)
noon = after_tick cell speaker clockwork heard (sample 43_199)

abbrev dhuhr_event : Event
dhuhr_event = record {
  key = record { day = pos 19_782; prayer = Prayer.dhuhr };
  utc = pos (19_782 * 86_400 + 43_200);
  enabled = true;
  shared_with = none;
}

two_calls :
    Runs cell speaker clockwork device
      (dhuhr_event ∷ fajr_event ∷ [])
      (after_tick cell speaker clockwork noon (sample 43_200))
unfolding running
two_calls =
    step
      (step (step (step start (ticks (sample 17_999))) (ticks (sample 18_000)))
        (ticks (sample 43_199)))
      (ticks (sample 43_200))

Runs-AllApart_example : AllApart (dhuhr_event ∷ fajr_event ∷ [])
Runs-AllApart_example =
    Runs-AllApart cell speaker clockwork cell-IsDurable cell-IsAtomic none [] default_settings
      two_calls

tick-Plays_example : is_continuous armed.scheduler (sample 18_000) ≡ true
tick-Plays_example =
    (tick-Plays cell speaker clockwork armed.scheduler armed.medium armed.backend (sample 18_000)
      fajr_event fajr_played).4

tick-Change_example :
    Change cell armed.scheduler armed.medium
      (after_tick cell speaker clockwork armed (sample 18_000)).scheduler
      (after_tick cell speaker clockwork armed (sample 18_000)).medium
tick-Change_example =
    tick-Change cell speaker clockwork armed.scheduler armed.medium armed.backend (sample 18_000)

-- The timetable around the day, at its Fajr.
abbrev earlier_events : List Event
earlier_events = take 5 armed.scheduler.events

abbrev later_events : List Event
later_events = drop 6 armed.scheduler.events

tick-Starts_example :
    (found : Event) × Starts cell speaker armed.backend found
      (tick cell speaker clockwork armed.scheduler armed.medium armed.backend (sample 18_000))
unfolding running events_for all_apart consumed is_timely is_skipped
tick-Starts_example =
    tick-Starts cell speaker clockwork armed.scheduler armed.medium armed.backend (sample 18_000)
      earlier_events later_events fajr_event refl refl refl (λ x. refl) refl refl refl refl refl
      refl refl

-- Nights in which Isha falls on the Fajr of the next day.
abbrev white_nights : DayCalculator
white_nights settings d = some (record {
  fajr_utc = at_hour d 5;
  sunrise_utc = at_hour d 6;
  dhuhr_utc = at_hour d 12;
  asr_utc = at_hour d 15;
  maghrib_utc = at_hour d 18;
  isha_utc = at_hour d 29;
})

abbrev bright : PrayerDay
bright = record {
  fajr_utc = some (pos 1_709_182_800);
  sunrise_utc = some (pos 1_709_186_400);
  dhuhr_utc = some (pos 1_709_208_000);
  asr_utc = some (pos 1_709_218_800);
  maghrib_utc = some (pos 1_709_229_600);
  isha_utc = some (pos 1_709_269_200);
}

abbrev white_events : List Event × List ScheduleConflict
white_events = elim (timetable white_nights default_settings (date 2024 2 29)) [
  | none ↦ ([], [])
  | some built ↦ built
]

-- The Isha of the day stands under the Fajr of the day after.
timetable_complete_example :
    Stands white_events.0 (record { day = pos 19_782; prayer = isha }) (pos 1_709_269_200)
unfolding running timetable
timetable_complete_example =
    timetable_complete white_nights default_settings (date 2024 2 29) white_events 2 bright isha
      (pos 1_709_269_200) refl (omega arith) (omega arith) refl refl

-- The shared event of that night.
abbrev night_event : Event
night_event = record {
  key = record { day = pos 19_783; prayer = Prayer.fajr };
  utc = pos 1_709_269_200;
  enabled = true;
  shared_with = some (record { day = pos 19_782; prayer = isha });
}

night_event_in : Memᴰ night_event white_events.0
unfolding running timetable
night_event_in = Memᴰ.tail (
    Memᴰ.tail
      (Memᴰ.tail (Memᴰ.tail (Memᴰ.tail (Memᴰ.tail (Memᴰ.tail (Memᴰ.tail (Memᴰ.head refl))))))))

-- One of the three days has a prayer at its time.
timetable_sound_example :
    (k : ℕ) × (times : PrayerDay) × (p : Prayer) × ((1 ≤ k) × (k ≤ 3))
    × (white_nights default_settings (civil_date (day_number (date 2024 2 29) -ℤ pos 2 +ℤ pos k))
        ≡ some times)
    × (time_at times p ≡ some (pos 1_709_269_200))
    × Carries night_event
        (record { day = day_number (date 2024 2 29) -ℤ pos 2 +ℤ pos k; prayer = p })
unfolding running timetable
timetable_sound_example =
    timetable_sound white_nights default_settings (date 2024 2 29) white_events night_event refl
      night_event_in
