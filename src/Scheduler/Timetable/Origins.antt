-- ===== src/Scheduler/Timetable/Origins.antt =====
-- Where an event of a timetable comes from: its own prayer, or an Isha that falls on its Fajr.
use openathan.Base.{
  ◌≡◌, ◌⊎◌, inl, inr, refl, sym, ap, ◌∙◌, subst, ℤ, pos, ◌-ℤ◌, true, Bool, Option, none, some, List,
  [], ◌∷◌, ◌++◌, ltb_ℤ, arith, if_both, eq_ℤ_iff, Option-cases, Bool-cases, if_cases,
}
use mathlib.Core.Option
use mathlib.Core.Option.{some-injective}
use mathlib.Core.List.{Memᴰ}
use openathan.Scheduler.{
  Prayer, fajr, dhuhr, asr, maghrib, isha, time_at, at, Event, EventKey, Settings, PrayerDay,
}
use openathan.Scheduler.Rebuild.{
  in_window, keep_in_window, event_at, events_of_day, insert_event, sort_events, same_time,
  fajr_event, isha_of, fajr_of,
}
use openathan.Scheduler.Timetable.{Near, mapped}

-- A member of a list whose tail was sorted, or into which an event was put.
first_or :
    (a e : Event) (es fs : List Event) → (Memᴰ a fs → Memᴰ a es) → Memᴰ a (e ∷ fs) → Memᴰ a (e ∷ es)
first_or a e es fs move (Memᴰ.head q) = Memᴰ.head q
first_or a e es fs move (Memᴰ.tail h) = Memᴰ.tail (move h)

swapped : (a e f : Event) (fs : List Event) → Memᴰ a (f ∷ e ∷ fs) → Memᴰ a (e ∷ f ∷ fs)
swapped a e f fs (Memᴰ.head q) = Memᴰ.tail (Memᴰ.head q)
swapped a e f fs (Memᴰ.tail (Memᴰ.head q)) = Memᴰ.head q
swapped a e f fs (Memᴰ.tail (Memᴰ.tail h)) = Memᴰ.tail (Memᴰ.tail h)

head_or :
    (today : ℤ) (f e : Event) (es : List Event)
    → in_window today f ≡ true
    → Memᴰ e (f ∷ es)
    → ((some f ≡ some e) × (in_window today e ≡ true)) ⊎ Memᴰ e es
head_or today f e es w (Memᴰ.head q) = inl (ap some (sym q), ap (in_window today) q ∙ w)
head_or today f e es w (Memᴰ.tail h) = inr h

insert_event_from : (a e : Event) (es : List Event) → Memᴰ a (insert_event e es) → Memᴰ a (e ∷ es)
unfolding insert_event
insert_event_from a e [] h = h
insert_event_from a e (f ∷ fs) h =
    if_both (λ (l : List Event). Memᴰ a l → Memᴰ a (e ∷ f ∷ fs)) (ltb_ℤ f.utc e.utc)
      (λ k.
        swapped a e f fs (first_or a f (e ∷ fs) (insert_event e fs) (insert_event_from a e fs) k))
      (λ k. k) h

pub sort_events_from : (a : Event) (es : List Event) → Memᴰ a (sort_events es) → Memᴰ a es
unfolding sort_events
sort_events_from a [] h = h
sort_events_from a (e ∷ es) h =
    first_or a e es (sort_events es) (sort_events_from a es)
      (insert_event_from a e (sort_events es) h)

pub append_from : (a : Event) (xs ys : List Event) → Memᴰ a (xs ++ ys) → Memᴰ a xs ⊎ Memᴰ a ys
append_from a [] ys h = inr h
append_from a (x ∷ xs) ys (Memᴰ.head q) = inl (Memᴰ.head q)
append_from a (x ∷ xs) ys (Memᴰ.tail h) = elim (append_from a xs ys h) [
  | inl l ↦ inl (Memᴰ.tail l)
  | inr r ↦ inr r
]

-- An event carries a name.
abbrev pub Carries : Event → EventKey → Type 0
Carries e key = (e.key ≡ key) ⊎ (e.shared_with ≡ some key)

kept_from :
    (today : ℤ) (o : Option Event) (e : Event) (es : List Event)
    → Memᴰ e (keep_in_window today o es)
    → ((o ≡ some e) × (in_window today e ≡ true)) ⊎ Memᴰ e es
unfolding keep_in_window
kept_from today none e es h = inr h
kept_from today (some f) e es h =
    if_cases
      (λ (l : List Event). Memᴰ e l → ((some f ≡ some e) × (in_window today e ≡ true)) ⊎ Memᴰ e es)
      (in_window today f) (λ w k. head_or today f e es w k) (λ w k. inr k) h

module _ (settings : Settings) (today : ℤ) where
  pub events_of_day_from :
      (serial : ℤ) (yesterday : Option PrayerDay) (times : PrayerDay) (tomorrow : Option PrayerDay)
      (e : Event) (ps : List Prayer)
      → Memᴰ e (events_of_day settings today serial yesterday times tomorrow ps)
      → (p : Prayer) × (event_at settings serial yesterday times tomorrow p ≡ some e)
        × (in_window today e ≡ true)
  unfolding events_of_day
  events_of_day_from serial yesterday times tomorrow e [] h = elim h [ ]
  events_of_day_from serial yesterday times tomorrow e (p ∷ ps) h =
      elim (kept_from today (event_at settings serial yesterday times tomorrow p) e _ h) [
        | inl found ↦ (p, found.0, found.1)
        | inr more ↦ events_of_day_from serial yesterday times tomorrow e ps more
      ]

  -- The day of an event's own prayer is in the window, or that of the Isha that it shares.
  abbrev pub Own : ℤ → PrayerDay → Prayer → Event → Type 0
  Own serial times p e =
      Carries e (record { day = serial; prayer = p })
      × Near today serial
      × (time_at times p ≡ some e.utc)

  abbrev pub Before : ℤ → Option PrayerDay → Event → Type 0
  Before serial yesterday e =
      Carries e (record { day = serial -ℤ pos 1; prayer = isha })
      × Near today (serial -ℤ pos 1)
      × (isha_of yesterday ≡ some e.utc)

  same_time→eq : (o : Option ℤ) (t : ℤ) → same_time o (some t) ≡ true → o ≡ some t
  same_time→eq none t h = cc
  same_time→eq (some a) t h = ap some ((eq_ℤ_iff a t).0 h)

  fajr_origin :
      (serial : ℤ) (yesterday : Option PrayerDay) (times : PrayerDay) (t : ℤ)
      → times.fajr_utc ≡ some t
      → in_window today (fajr_event settings serial yesterday t) ≡ true
      → Own serial times fajr (fajr_event settings serial yesterday t)
        ⊎ Before serial yesterday (fajr_event settings serial yesterday t)
  unfolding fajr_event in_window
  fajr_origin serial yesterday times t is w =
      elim (Bool-cases (same_time (isha_of yesterday) (some t))) [
        | inl same ↦ ground (arith, is, w, same, same_time→eq (isha_of yesterday) t)
        | inr not_same ↦ ground (arith, is, w, not_same)
      ]

  plain_origin :
      (serial : ℤ) (times : PrayerDay) (p : Prayer) (t : ℤ) (on : Bool)
      → time_at times p ≡ some t
      → let e : Event = record {
        key = record { day = serial; prayer = p };
        utc = t;
        enabled = on;
        shared_with = none;
      } in
        in_window today e ≡ true → Own serial times p e
  unfolding in_window
  plain_origin serial times p t on is w = (inl refl, ground (arith, w), is)

  plain_event :
      (serial : ℤ) (times : PrayerDay) (p : Prayer) (o : Option ℤ) (e : Event)
      → time_at times p ≡ o
      → Option.map
          (λ t. record {
            key = record { day = serial; prayer = p };
            utc = t;
            enabled = at settings.enabled p;
            shared_with = none;
          })
          o
        ≡ some e
      → in_window today e ≡ true
      → Own serial times p e
  plain_event serial times p none e is h w = absurd (cc h)
  plain_event serial times p (some t) e is h w =
      let q = some-injective _ _ h in
      subst (Own serial times p) q
        (plain_origin serial times p t (at settings.enabled p) is (ap (in_window today) q ∙ w))

  -- What an Isha's own event is.
  isha_shape :
      (serial : ℤ) (yesterday : Option PrayerDay) (times : PrayerDay) (tomorrow : Option PrayerDay)
      (e : Event)
      → event_at settings serial yesterday times tomorrow isha ≡ some e
      → (times.isha_utc ≡ some e.utc)
        × (e.key ≡ record { day = serial; prayer = isha })
        × (e.shared_with ≡ none)
  unfolding event_at
  isha_shape serial yesterday times tomorrow e h = elim (Option-cases times.isha_utc) [
    | inl n ↦ ground (arith, h, n)
    | inr (t, is) ↦ elim (Option-cases (fajr_of tomorrow)) [
      | inl n ↦ ground (arith, h, is, n)
      | inr (f, n) ↦ ground (arith, h, is, n)
    ]
  ]

  isha_origin :
      (serial : ℤ) (times : PrayerDay) (e : Event)
      → times.isha_utc ≡ some e.utc
      → e.key ≡ record { day = serial; prayer = isha }
      → e.shared_with ≡ none
      → in_window today e ≡ true
      → Own serial times isha e
  unfolding in_window
  isha_origin serial times e is key alone w = (inl key, ground (arith, key, alone, w), is)

  pub event_origin :
      (serial : ℤ) (yesterday : Option PrayerDay) (times : PrayerDay) (tomorrow : Option PrayerDay)
      (p : Prayer) (e : Event)
      → event_at settings serial yesterday times tomorrow p ≡ some e
      → in_window today e ≡ true
      → Own serial times p e ⊎ Before serial yesterday e
  unfolding event_at
  event_origin serial yesterday times tomorrow fajr e h w =
      let m = mapped (fajr_event settings serial yesterday) times.fajr_utc e h in
      subst (λ (x : Event). Own serial times fajr x ⊎ Before serial yesterday x) m.2
        (fajr_origin serial yesterday times m.0 m.1 (ap (in_window today) m.2 ∙ w))
  event_origin serial yesterday times tomorrow isha e h w =
      let s = isha_shape serial yesterday times tomorrow e h in
      inl (isha_origin serial times e s.0 s.1 s.2 w)
  event_origin serial yesterday times tomorrow dhuhr e h w =
      inl (plain_event serial times dhuhr times.dhuhr_utc e refl h w)
  event_origin serial yesterday times tomorrow asr e h w =
      inl (plain_event serial times asr times.asr_utc e refl h w)
  event_origin serial yesterday times tomorrow maghrib e h w =
      inl (plain_event serial times maghrib times.maghrib_utc e refl h w)
