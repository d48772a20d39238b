-- ===== src/Scheduler/Timetable.antt =====
-- The events that `Scheduler::rebuild` makes of calculated days: what it means that a prayer has one.
pub mod Names
pub mod Days
pub mod Complete
pub mod Origins
pub mod Sound
use openathan.Base.{
  ℕ, zero, suc, ◌≡◌, ◌≢◌, ◌⊎◌, inl, inr, refl, sym, ap, ◌∙◌, subst, ℤ, ◌≤ℤ◌, ◌≤◌, ◌<◌, ◌+◌, pos,
  ◌-ℤ◌, ◌+ℤ◌, true, false, Bool, Option, none, some, List, [], ◌∷◌, ◌++◌, ltb_ℤ, arith, if_cases,
  if_both, if_met, eq_ℤ, +ℤ_parts, -ℤ_parts, eq_of_parts, eq_ℤ_iff, ◌==◌, ◌||◌, ◌&&◌, not, length,
  Option-cases, Bool-cases,
}
use mathlib.Core.Option
use mathlib.Core.Option.{some-injective}
use mathlib.Core.List.{Memᴰ}
use openathan.Calendar.{CivilDate, day_number, civil_date, valid_date}
use openathan.Scheduler.{
  Prayer, fajr, dhuhr, asr, maghrib, isha, time_at, Event, EventKey, ScheduleConflict, Settings,
  PrayerDay, DayCalculator, no_times,
}
use openathan.Scheduler.Rebuild.{
  in_window, keep_in_window, event_at, events_of_day, events_from, prayers, insert_event,
  sort_events, timetable, next_day, order_days, fajr_of, Preceding, same_time, fajr_event, isha_of,
}

pub mapped :
    {A B : Type 0} (f : A → B) (o : Option A) (b : B)
    → Option.map f o ≡ some b
    → (a : A) × (o ≡ some a) × (f a ≡ b)
mapped f none b h = absurd (cc h)
mapped f (some a) b h = (a, refl, some-injective _ _ h)

-- A prayer is in a timetable: an event at its time has its name, as the key or as the other key.
abbrev pub Stands : List Event → EventKey → ℤ → Type 0
Stands es key t =
    (e : Event) × Memᴰ e es × (e.utc ≡ t) × ((e.key ≡ key) ⊎ (e.shared_with ≡ some key))

pub Memᴰ-append_left : {A : Type 0} (a : A) (xs ys : List A) → Memᴰ a xs → Memᴰ a (xs ++ ys)
Memᴰ-append_left a [] ys h = elim h [ ]
Memᴰ-append_left a (x ∷ xs) ys (Memᴰ.head e) = Memᴰ.head e
Memᴰ-append_left a (x ∷ xs) ys (Memᴰ.tail h) = Memᴰ.tail (Memᴰ-append_left a xs ys h)

pub Memᴰ-append_right : {A : Type 0} (a : A) (xs ys : List A) → Memᴰ a ys → Memᴰ a (xs ++ ys)
Memᴰ-append_right a [] ys h = h
Memᴰ-append_right a (x ∷ xs) ys h = Memᴰ.tail (Memᴰ-append_right a xs ys h)

Memᴰ-insert_event : (a e : Event) (es : List Event) → Memᴰ a (e ∷ es) → Memᴰ a (insert_event e es)
unfolding insert_event
Memᴰ-insert_event a e [] h = h
Memᴰ-insert_event a e (f ∷ fs) (Memᴰ.head q) =
    if_both (Memᴰ a) (ltb_ℤ f.utc e.utc) (Memᴰ.tail (Memᴰ-insert_event a e fs (Memᴰ.head q)))
      (Memᴰ.head q)
Memᴰ-insert_event a e (f ∷ fs) (Memᴰ.tail (Memᴰ.head q)) =
    if_both (Memᴰ a) (ltb_ℤ f.utc e.utc) (Memᴰ.head q) (Memᴰ.tail (Memᴰ.head q))
Memᴰ-insert_event a e (f ∷ fs) (Memᴰ.tail (Memᴰ.tail h)) =
    if_both (Memᴰ a) (ltb_ℤ f.utc e.utc) (Memᴰ.tail (Memᴰ-insert_event a e fs (Memᴰ.tail h)))
      (Memᴰ.tail (Memᴰ.tail h))

pub Memᴰ-sort_events : (a : Event) (es : List Event) → Memᴰ a es → Memᴰ a (sort_events es)
unfolding sort_events
Memᴰ-sort_events a [] h = elim h [ ]
Memᴰ-sort_events a (e ∷ es) (Memᴰ.head q) = Memᴰ-insert_event a e (sort_events es) (Memᴰ.head q)
Memᴰ-sort_events a (e ∷ es) (Memᴰ.tail h) =
    Memᴰ-insert_event a e (sort_events es) (Memᴰ.tail (Memᴰ-sort_events a es h))

kept_tail :
    (today : ℤ) (o : Option Event) (e : Event) (es : List Event)
    → Memᴰ e es
    → Memᴰ e (keep_in_window today o es)
unfolding keep_in_window
kept_tail today none e es h = h
kept_tail today (some f) e es h = if_both (Memᴰ e) (in_window today f) (Memᴰ.tail h) h

kept_head :
    (today : ℤ) (o : Option Event) (e : Event) (es : List Event)
    → o ≡ some e
    → in_window today e ≡ true
    → Memᴰ e (keep_in_window today o es)
unfolding keep_in_window
kept_head today none e es h w = absurd (cc h)
kept_head today (some f) e es h w =
    let q : f ≡ e = some-injective _ _ h in
    if_met (Memᴰ e) (in_window today f) es (ap (in_window today) q ∙ w) (Memᴰ.head (sym q))

-- The day at an index.
abbrev pub day_at : List PrayerDay → ℕ → Option PrayerDay
day_at [] k = none
day_at (d ∷ ds) zero = some d
day_at (d ∷ ds) (suc k) = day_at ds k

abbrev pub Near : ℤ → ℤ → Type 0
Near today day = (today -ℤ pos 1 ≤ℤ day) × (day ≤ℤ today +ℤ pos 1)

-- The event of a prayer on its own day.
abbrev pub Named : Option Event → EventKey → ℤ → Type 0
Named o key t =
    (e : Event) × (o ≡ some e) × (e.utc ≡ t) × ((e.key ≡ key) ⊎ (e.shared_with ≡ some key))

pub inside_window :
    (today : ℤ) (e : Event) (key : EventKey)
    → (e.key ≡ key) ⊎ (e.shared_with ≡ some key)
    → Near today key.day
    → in_window today e ≡ true
unfolding in_window
inside_window today e key (inl h) near = ground (arith, h)
inside_window today e key (inr h) near = ground (arith, h)

pub all_prayers : (p : Prayer) → Memᴰ p prayers
unfolding prayers
all_prayers fajr = Memᴰ.head refl
all_prayers dhuhr = Memᴰ.tail (Memᴰ.head refl)
all_prayers asr = Memᴰ.tail (Memᴰ.tail (Memᴰ.head refl))
all_prayers maghrib = Memᴰ.tail (Memᴰ.tail (Memᴰ.tail (Memᴰ.head refl)))
all_prayers isha = Memᴰ.tail (Memᴰ.tail (Memᴰ.tail (Memᴰ.tail (Memᴰ.head refl))))

module _ (settings : Settings) (today : ℤ) where
  pub Memᴰ-events_of_day :
      (serial : ℤ) (yesterday : Option PrayerDay) (times : PrayerDay) (tomorrow : Option PrayerDay)
      (p : Prayer) (e : Event) (ps : List Prayer)
      → Memᴰ p ps
      → event_at settings serial yesterday times tomorrow p ≡ some e
      → in_window today e ≡ true
      → Memᴰ e (events_of_day settings today serial yesterday times tomorrow ps)
  unfolding events_of_day
  Memᴰ-events_of_day serial yesterday times tomorrow p e [] h is w = elim h [ ]
  Memᴰ-events_of_day serial yesterday times tomorrow p e (q ∷ ps) (Memᴰ.head h) is w =
      kept_head today _ e _ (ap (event_at settings serial yesterday times tomorrow) (sym h) ∙ is) w
  Memᴰ-events_of_day serial yesterday times tomorrow p e (q ∷ ps) (Memᴰ.tail h) is w =
      kept_tail today _ e _ (Memᴰ-events_of_day serial yesterday times tomorrow p e ps h is w)
