-- ===== src/Scheduler/Timetable/Sound.antt =====
-- Every event of a timetable is that of a prayer of one of its days.
use openathan.Base.{
  ℕ, suc, ◌≡◌, ◌⊎◌, inl, inr, refl, sym, subst, ℤ, pos, ◌-ℤ◌, ◌+ℤ◌, Option, none, some, List, [],
  ◌∷◌,
}
use mathlib.Core.List.{Memᴰ}
use openathan.Scheduler.{Prayer, isha, time_at, Event, Settings, PrayerDay}
use openathan.Scheduler.Rebuild.{events_of_day, events_from, prayers, next_day}
use openathan.Scheduler.Timetable.{Near, day_at}
use openathan.Scheduler.Timetable.Names.{there_and_back}
use openathan.Scheduler.Timetable.Days.{no_days_on, days_on}
use openathan.Scheduler.Timetable.Origins.{
  append_from, events_of_day_from, event_origin, Own, Before, Carries,
}

module _ (settings : Settings) (today : ℤ) where
  -- Some day of the list has the event's prayer, at its time.
  abbrev pub Found : ℤ → List PrayerDay → Event → Type 0
  Found serial days e =
      (k : ℕ) × (times : PrayerDay) × (p : Prayer) × (day_at days k ≡ some times)
      × (time_at times p ≡ some e.utc)
      × Near today (serial +ℤ pos k)
      × Carries e (record { day = serial +ℤ pos k; prayer = p })

  first_day_has :
      (serial : ℤ) (times : PrayerDay) (rest : List PrayerDay) (p : Prayer) (e : Event)
      → Own settings today serial times p e
      → Found serial (times ∷ rest) e
  first_day_has serial times rest p e own =
      let same : serial ≡ serial +ℤ pos 0 = sym (no_days_on serial) in
      (
        0,
        times,
        p,
        refl,
        own.2,
        subst (Near today) same own.1,
        subst (λ (d : ℤ). Carries e (record { day = d; prayer = p })) same own.0,
      )

  later_day_has :
      (serial : ℤ) (times : PrayerDay) (rest : List PrayerDay) (e : Event)
      → Found (serial +ℤ pos 1) rest e
      → Found serial (times ∷ rest) e
  later_day_has serial times rest e f =
      let same : serial +ℤ pos 1 +ℤ pos f.0 ≡ serial +ℤ pos (suc f.0) = days_on serial f.0 in
      (
        suc f.0,
        f.1,
        f.2,
        f.3,
        f.4,
        subst (Near today) same f.5,
        subst (λ (d : ℤ). Carries e (record { day = d; prayer = f.2 })) same f.6,
      )

  shared_day_has :
      (serial : ℤ) (times : PrayerDay) (rest : List PrayerDay) (e : Event)
      → Before settings today (serial +ℤ pos 1) (some times) e
      → Found serial (times ∷ rest) e
  shared_day_has serial times rest e b =
      let same : serial +ℤ pos 1 -ℤ pos 1 ≡ serial = there_and_back serial in
      first_day_has serial times rest isha e (
        subst (λ (d : ℤ). Carries e (record { day = d; prayer = isha })) same b.0,
        subst (Near today) same b.1,
        b.2,
      )

  events_from-Found :
      (days : List PrayerDay) (serial : ℤ) (yesterday : Option PrayerDay) (e : Event)
      → Memᴰ e (events_from settings today serial yesterday days)
      → Found serial days e ⊎ Before settings today serial yesterday e
  unfolding events_from
  events_from-Found [] serial yesterday e h = elim h [ ]
  events_from-Found (times ∷ rest) serial yesterday e h =
      let here = events_of_day settings today serial yesterday times (next_day rest) prayers in
      elim (append_from e here _ h) [
        | inl now ↦
            let made =
              events_of_day_from settings today serial yesterday times (next_day rest) e prayers
                now in
            elim (event_origin settings today serial yesterday times (next_day rest) made.0 e made.1
              made.2) [
                | inl own ↦ inl (first_day_has serial times rest made.0 e own)
                | inr before ↦ inr before
              ]
        | inr later ↦ elim (events_from-Found rest (serial +ℤ pos 1) (some times) e later) [
          | inl found ↦ inl (later_day_has serial times rest e found)
          | inr before ↦ inl (shared_day_has serial times rest e before)
        ]
      ]

  -- Every event of a timetable is found, since nothing comes before its first day.
  pub some_day_has :
      (days : List PrayerDay) (serial : ℤ) (e : Event)
      → Memᴰ e (events_from settings today serial none days)
      → Found serial days e
  some_day_has days serial e h = elim (events_from-Found days serial none e h) [
    | inl found ↦ found
    | inr before ↦ absurd (cc (before.2))
  ]
