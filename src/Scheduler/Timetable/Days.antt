-- ===== src/Scheduler/Timetable/Days.antt =====
-- Every prayer of a day in the window has an event among those of all days.
use openathan.Base.{
  ℕ, zero, suc, ◌≡◌, inl, inr, sym, ap, ◌∙◌, subst, ℤ, pos, ◌+ℤ◌, Option, some, List, [], ◌∷◌,
  arith, +ℤ_parts, eq_of_parts,
}
use mathlib.Core.Option.{some-injective}
use openathan.Scheduler.{Prayer, fajr, isha, time_at, EventKey, Settings, PrayerDay}
use openathan.Scheduler.Rebuild.{event_at, events_from, prayers, next_day, fajr_of}
use openathan.Scheduler.Timetable.{
  Stands, Named, Near, inside_window, all_prayers, day_at, Memᴰ-events_of_day, Memᴰ-append_left,
  Memᴰ-append_right,
}
use openathan.Scheduler.Timetable.Names.{event_at-Named, event_at-fajr_shared}

pub no_days_on : (a : ℤ) → a +ℤ pos 0 ≡ a
no_days_on a = eq_of_parts (a +ℤ pos 0) a (omega (arith, +ℤ_parts a (pos 0)))

pub days_on : (a : ℤ) (k : ℕ) → a +ℤ pos 1 +ℤ pos k ≡ a +ℤ pos (suc k)
days_on a k =
    eq_of_parts (a +ℤ pos 1 +ℤ pos k) (a +ℤ pos (suc k))
      (omega (arith, +ℤ_parts a (pos 1), +ℤ_parts (a +ℤ pos 1) (pos k), +ℤ_parts a (pos (suc k))))

module _ (settings : Settings) (today : ℤ) where
  -- A named event of the first day stands in the timetable from that day on.
  event_found :
      (serial : ℤ) (yesterday : Option PrayerDay) (times : PrayerDay) (rest : List PrayerDay)
      (p : Prayer) (key : EventKey) (t : ℤ)
      → Near today key.day
      → Named (event_at settings serial yesterday times (next_day rest) p) key t
      → Stands (events_from settings today serial yesterday (times ∷ rest)) key t
  unfolding events_from
  event_found serial yesterday times rest p key t near named = (
    named.0,
    Memᴰ-append_left _ _ _ (
        Memᴰ-events_of_day settings today serial yesterday times (next_day rest) p named.0 prayers
          (all_prayers p) named.1 (inside_window today named.0 key named.3 near)),
    named.2,
    named.3,
  )

  later_has_event :
      (serial : ℤ) (yesterday : Option PrayerDay) (times : PrayerDay) (rest : List PrayerDay)
      (key : EventKey) (t : ℤ)
      → Stands (events_from settings today (serial +ℤ pos 1) (some times) rest) key t
      → Stands (events_from settings today serial yesterday (times ∷ rest)) key t
  unfolding events_from
  later_has_event serial yesterday times rest key t found =
      (found.0, Memᴰ-append_right _ _ _ found.1, found.2, found.3)

  shared_has_event :
      (serial : ℤ) (yesterday : Option PrayerDay) (times : PrayerDay) (rest : List PrayerDay)
      (p : Prayer) (t : ℤ)
      → Near today serial
      → time_at times p ≡ some t
      → p ≡ isha
      → fajr_of (next_day rest) ≡ some t
      → Stands
          (events_from settings today serial yesterday (times ∷ rest))
          (record { day = serial; prayer = p })
          t
  shared_has_event serial yesterday times [] p t near is q morning = absurd (cc morning)
  shared_has_event serial yesterday times (later ∷ rest) p t near is q morning =
      let night : times.isha_utc ≡ some t = ap (time_at times) (sym q) ∙ is in
      subst
        (λ (x : Prayer).
          Stands (events_from settings today serial yesterday (times ∷ later ∷ rest))
            (record { day = serial; prayer = x }) t)
        (sym q)
        (later_has_event serial yesterday times (later ∷ rest) _ t (
          event_found (serial +ℤ pos 1) (some times) later rest fajr _ t near
            (event_at-fajr_shared settings serial times later (next_day rest) t night morning)))

  -- Every prayer of the first day stands, if the day is in the window.
  first_has_event :
      (serial : ℤ) (yesterday : Option PrayerDay) (times : PrayerDay) (rest : List PrayerDay)
      (p : Prayer) (t : ℤ)
      → Near today serial
      → time_at times p ≡ some t
      → Stands
          (events_from settings today serial yesterday (times ∷ rest))
          (record { day = serial; prayer = p })
          t
  first_has_event serial yesterday times rest p t near is =
      elim (event_at-Named settings serial yesterday times (next_day rest) p t is) [
        | inl named ↦ event_found serial yesterday times rest p _ t near named
        | inr shared ↦ shared_has_event serial yesterday times rest p t near is shared.0 shared.1
      ]

  -- Every prayer of every day in the window stands.
  pub has_event :
      (days : List PrayerDay) (serial : ℤ) (yesterday : Option PrayerDay) (k : ℕ)
      (times : PrayerDay) (p : Prayer) (t : ℤ)
      → day_at days k ≡ some times
      → time_at times p ≡ some t
      → Near today (serial +ℤ pos k)
      → Stands
          (events_from settings today serial yesterday days)
          (record { day = serial +ℤ pos k; prayer = p })
          t
  has_event [] serial yesterday k times p t here is near = absurd (cc here)
  has_event (first ∷ rest) serial yesterday zero times p t here is near =
      let q : first ≡ times = some-injective _ _ here in
      let same : serial +ℤ pos 0 ≡ serial = no_days_on serial in
      subst
        (λ (d : ℤ).
          Stands (events_from settings today serial yesterday (first ∷ rest))
            (record { day = d; prayer = p }) t)
        (sym same)
        (first_has_event serial yesterday first rest p t (subst (Near today) same near)
          (ap (λ x. time_at x p) q ∙ is))
  has_event (first ∷ rest) serial yesterday (suc k) times p t here is near =
      let same : serial +ℤ pos 1 +ℤ pos k ≡ serial +ℤ pos (suc k) = days_on serial k in
      later_has_event serial yesterday first rest _ t (
        subst
          (λ (d : ℤ).
            Stands (events_from settings today (serial +ℤ pos 1) (some first) rest)
              (record { day = d; prayer = p }) t)
          same
          (has_event rest (serial +ℤ pos 1) (some first) k times p t here is
            (subst (Near today) (sym same) near)))
