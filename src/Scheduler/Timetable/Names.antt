-- ===== src/Scheduler/Timetable/Names.antt =====
-- The event of a prayer carries its name: `event_at` on every prayer, and on an Isha that falls on
-- the next Fajr.
use openathan.Base.{
  ◌≡◌, ◌⊎◌, inl, inr, refl, sym, ap, ◌∙◌, subst, ℤ, pos, ◌-ℤ◌, ◌+ℤ◌, true, false, Bool, Option,
  none, some, ltb_ℤ, arith, eq_ℤ, +ℤ_parts, -ℤ_parts, eq_of_parts, eq_ℤ_iff, Option-cases,
  Bool-cases,
}
use mathlib.Core.Option
use mathlib.Core.Option.{some-injective}
use openathan.Scheduler.{
  Prayer, fajr, dhuhr, asr, maghrib, isha, time_at, Event, EventKey, Settings, PrayerDay,
}
use openathan.Scheduler.Rebuild.{event_at, fajr_of, same_time, fajr_event, isha_of}
use openathan.Scheduler.Timetable.{Named}

pub there_and_back : (a : ℤ) → a +ℤ pos 1 -ℤ pos 1 ≡ a
there_and_back a =
    eq_of_parts (a +ℤ pos 1 -ℤ pos 1) a
      (omega (arith, +ℤ_parts a (pos 1), -ℤ_parts (a +ℤ pos 1) (pos 1)))

module _ (settings : Settings) where
  fajr_event-utc :
      (serial : ℤ) (yesterday : Option PrayerDay) (t : ℤ)
      → (fajr_event settings serial yesterday t).utc ≡ t
  unfolding fajr_event
  fajr_event-utc serial yesterday t = ground arith

  own_name :
      (serial : ℤ) (yesterday : Option PrayerDay) (t : ℤ)
      → let own : EventKey = record { day = serial; prayer = fajr } in
        let e = fajr_event settings serial yesterday t in (e.key ≡ own) ⊎ (e.shared_with ≡ some own)
  unfolding fajr_event
  own_name serial yesterday t = ground arith

  other_name :
      (serial : ℤ) (yesterday : Option PrayerDay) (t : ℤ)
      → same_time (isha_of yesterday) (some t) ≡ true
      → let other : EventKey = record { day = serial -ℤ pos 1; prayer = isha } in
        let e = fajr_event settings serial yesterday t in
        (e.key ≡ other) ⊎ (e.shared_with ≡ some other)
  unfolding fajr_event
  other_name serial yesterday t same = ground (arith, same)

  event_at-fajr :
      (serial : ℤ) (yesterday : Option PrayerDay) (times : PrayerDay) (tomorrow : Option PrayerDay)
      (t : ℤ)
      → times.fajr_utc ≡ some t
      → event_at settings serial yesterday times tomorrow fajr
        ≡ some (fajr_event settings serial yesterday t)
  unfolding event_at fajr_event
  event_at-fajr serial yesterday times tomorrow t is = ap (Option.map _) is

  event_at-isha :
      (serial : ℤ) (yesterday : Option PrayerDay) (times : PrayerDay) (tomorrow : Option PrayerDay)
      (t : ℤ)
      → times.isha_utc ≡ some t
      → Named
          (event_at settings serial yesterday times tomorrow isha)
          (record { day = serial; prayer = isha })
          t
        ⊎ (fajr_of tomorrow ≡ some t)
  unfolding event_at
  event_at-isha serial yesterday times tomorrow t is =
      let heard : Bool → Event = λ on. record {
        key = record { day = serial; prayer = isha };
        utc = t;
        enabled = on;
        shared_with = none;
      } in
      elim (Option-cases (fajr_of tomorrow)) [
        | inl n ↦ inl (heard settings.enabled.of_isha, ground (arith, is, n), refl, inl refl)
        | inr (f, n) ↦ elim (Bool-cases (eq_ℤ t f)) [
          | inl same ↦ inr (n ∙ ap some (sym ((eq_ℤ_iff t f).0 same)))
          | inr other ↦ elim (Bool-cases (ltb_ℤ f t)) [
            | inl late ↦ inl (heard false, ground (arith, is, n, other, late), refl, inl refl)
            | inr fits ↦
                inl (
                  heard settings.enabled.of_isha,
                  ground (arith, is, n, other, fits),
                  refl,
                  inl refl,
                )
          ]
        ]
      ]

  pub event_at-Named :
      (serial : ℤ) (yesterday : Option PrayerDay) (times : PrayerDay) (tomorrow : Option PrayerDay)
      (p : Prayer) (t : ℤ)
      → time_at times p ≡ some t
      → Named
          (event_at settings serial yesterday times tomorrow p)
          (record { day = serial; prayer = p })
          t
        ⊎ ((p ≡ isha) × (fajr_of tomorrow ≡ some t))
  unfolding event_at
  event_at-Named serial yesterday times tomorrow fajr t is = inl (
    fajr_event settings serial yesterday t,
    event_at-fajr serial yesterday times tomorrow t is,
    fajr_event-utc serial yesterday t,
    own_name serial yesterday t,
  )
  event_at-Named serial yesterday times tomorrow dhuhr t is =
      inl (_, ap (Option.map _) is, refl, inl refl)
  event_at-Named serial yesterday times tomorrow asr t is =
      inl (_, ap (Option.map _) is, refl, inl refl)
  event_at-Named serial yesterday times tomorrow maghrib t is =
      inl (_, ap (Option.map _) is, refl, inl refl)
  event_at-Named serial yesterday times tomorrow isha t is =
      elim (event_at-isha serial yesterday times tomorrow t is) [
        | inl named ↦ inl named
        | inr shared ↦ inr (refl, shared)
      ]

  -- An Isha at the time of the next Fajr stands under that Fajr.
  pub event_at-fajr_shared :
      (serial : ℤ) (times later : PrayerDay) (tomorrow : Option PrayerDay) (t : ℤ)
      → times.isha_utc ≡ some t
      → later.fajr_utc ≡ some t
      → Named
          (event_at settings (serial +ℤ pos 1) (some times) later tomorrow fajr)
          (record { day = serial; prayer = isha })
          t
  event_at-fajr_shared serial times later tomorrow t night morning =
      let same : same_time (isha_of (some times)) (some t) ≡ true =
        ap (λ o. same_time o (some t)) night ∙ (eq_ℤ_iff t t).1 refl in
      let back : serial +ℤ pos 1 -ℤ pos 1 ≡ serial = there_and_back serial in
      (
        fajr_event settings (serial +ℤ pos 1) (some times) t,
        event_at-fajr (serial +ℤ pos 1) (some times) later tomorrow t morning,
        fajr_event-utc (serial +ℤ pos 1) (some times) t,
        subst
            (λ (d : ℤ).
              let e = fajr_event settings (serial +ℤ pos 1) (some times) t in
              (e.key ≡ record { day = d; prayer = isha })
              ⊎ (e.shared_with ≡ some (record { day = d; prayer = isha })))
            back (other_name (serial +ℤ pos 1) (some times) t same),
      )
