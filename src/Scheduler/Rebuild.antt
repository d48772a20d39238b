-- ===== src/Scheduler/Rebuild.antt =====
-- `Scheduler::rebuild` of lib/openathan-core/src/scheduler.cpp: the timetable of the three days
-- around a date, from five calculated days. `order_days` is its first loop; `conflict_at` and
-- `event_at` are the parts of the body of its second.
use openathan.Base.{
  ℕ, zero, suc, ℤ, pos, ◌+◌, ◌+ℤ◌, ◌-ℤ◌, Bool, true, false, not, ◌&&◌, ◌||◌, ◌>>=◌, Option, none,
  some, List, [], ◌∷◌, ◌++◌, ◌==◌, if◌then◌else◌, ltb_ℤ, leb_ℤ, eq_ℤ,
}
use mathlib.Core.Option
use openathan.Calendar.{CivilDate, valid_date, day_number, civil_date}
use openathan.Scheduler.{
  Prayer, fajr, dhuhr, asr, maghrib, isha, at, EventKey, Event, shared_playback, isha_suppressed,
  ScheduleConflict, Settings, PrayerDay, no_times, times_of, time_at, DayCalculator,
}

-- `preceding`, `preceding_index` and `preceding_day`.
pub record Preceding : Type 0 where
  pub time : Option ℤ
  pub index : ℕ
  pub day : ℕ

-- `time && *time >= first`, for some of the times.
reaches : ℤ → List (Option ℤ) → Bool
reaches first [] = false
reaches first (none ∷ rest) = reaches first rest
reaches first (some t ∷ rest) = leb_ℤ first t || reaches first rest

-- `time && *time <= last`, for some of the times.
not_after : ℤ → List (Option ℤ) → Bool
not_after last [] = false
not_after last (none ∷ rest) = not_after last rest
not_after last (some t ∷ rest) = leb_ℤ t last || not_after last rest

-- Whether the `i`-th time `t` of day `d` makes `rebuild` return false. Only an Isha may reach the
-- Fajr of the next day, and then no other time of the two days may lie across.
refuses : PrayerDay → PrayerDay → ℕ → Preceding → Bool → ℕ → ℤ → Bool
unfolding reaches not_after
refuses yesterday today d before first i t = elim before.time [
  | none ↦ false
  | some last ↦
      leb_ℤ t last
      && (not (first && before.day + 1 == d && before.index == 5 && i == 0)
          || reaches t (
              yesterday.fajr_utc ∷ yesterday.sunrise_utc ∷ yesterday.dhuhr_utc ∷ yesterday.asr_utc
              ∷ yesterday.maghrib_utc ∷ [])
          || not_after last (
              today.sunrise_utc ∷ today.dhuhr_utc ∷ today.asr_utc ∷ today.maghrib_utc
              ∷ today.isha_utc ∷ []))
]

-- The loop over the times of day `d`.
unfoldable pub order_day :
    PrayerDay → PrayerDay → ℕ → List (Option ℤ) → ℕ → Bool → Preceding → Option Preceding
unfolding refuses
order_day yesterday today d [] i first before = some before
order_day yesterday today d (none ∷ rest) i first before =
    order_day yesterday today d rest (i + 1) first before
order_day yesterday today d (some t ∷ rest) i first before =
    let later =
      order_day yesterday today d rest (i + 1) false
        (record { time = some t; index = i; day = d }) in
    if refuses yesterday today d before first i t then none else later

-- The loop over the five days from `d`, with the days that it calculates. A guard day outside the
-- supported dates is left empty.
unfoldable pub order_days :
    DayCalculator → Settings → ℤ → ℕ → ℕ → PrayerDay → Preceding → Option (List PrayerDay)
unfolding order_day civil_date valid_date
order_days calculate settings today zero d yesterday before = some []
order_days calculate settings today (suc left) d yesterday before =
    let day = civil_date (today -ℤ pos 2 +ℤ pos d) in
    let empty_day : Option (List PrayerDay) =
      Option.map (◌∷◌ no_times)
        (order_days calculate settings today left (d + 1) no_times before) in
    let full_day : Option (List PrayerDay) = calculate settings day >>= λ times.
    order_day yesterday times d (times_of times) 0 true before >>= λ after.
    Option.map (◌∷◌ times) (order_days calculate settings today left (d + 1) times after) in
    if not (valid_date day) && (d == 0 || d == 4) then empty_day else full_day

-- `a == b` on optional times.
abbrev pub same_time : Option ℤ → Option ℤ → Bool
same_time none none = true
same_time (some a) (some b) = eq_ℤ a b
same_time _ _ = false

abbrev pub isha_of : Option PrayerDay → Option ℤ
isha_of none = none
isha_of (some d) = d.isha_utc

abbrev pub fajr_of : Option PrayerDay → Option ℤ
fajr_of none = none
fajr_of (some d) = d.fajr_utc

-- The conflict of a day's Isha with the Fajr of the next day.
conflict_at : ℤ → PrayerDay → Option PrayerDay → List ScheduleConflict
conflict_at serial times tomorrow = elim times.isha_utc [
  | none ↦ []
  | some i ↦ elim (fajr_of tomorrow) [
    | none ↦ []
    | some f ↦
        if leb_ℤ f i
        then record {
          isha_key = record { day = serial; prayer = isha };
          isha_utc = i;
          fajr_key = record { day = serial +ℤ pos 1; prayer = fajr };
          fajr_utc = f;
          resolution = if eq_ℤ i f then shared_playback else isha_suppressed;
        }
          ∷ []
        else []
  ]
]

-- The event of a Fajr: shared with the Isha of the day before where the two coincide, and then
-- named after the Isha if only that is enabled.
unfoldable pub fajr_event : Settings → ℤ → Option PrayerDay → ℤ → Event
fajr_event settings serial yesterday t =
    let own : EventKey = record { day = serial; prayer = fajr } in
    let other : EventKey = record { day = serial -ℤ pos 1; prayer = isha } in
    let fajr_on = settings.enabled.of_fajr in
    let isha_on = settings.enabled.of_isha in
    if same_time (isha_of yesterday) (some t)
    then (if not fajr_on && isha_on
        then record { key = other; utc = t; enabled = fajr_on || isha_on; shared_with = some own }
        else record { key = own; utc = t; enabled = fajr_on || isha_on; shared_with = some other })
    else record { key = own; utc = t; enabled = fajr_on; shared_with = none }

-- The event of an Isha: none where the next Fajr stands for it, and muted where it comes later.
isha_event : Settings → ℤ → Option PrayerDay → ℤ → Option Event
isha_event settings serial tomorrow t =
    let own : EventKey = record { day = serial; prayer = isha } in
    let heard : Event = record {
      key = own;
      utc = t;
      enabled = settings.enabled.of_isha;
      shared_with = none;
    } in
    elim (fajr_of tomorrow) [
      | none ↦ some heard
      | some f ↦
          if eq_ℤ t f
          then none
          else if ltb_ℤ f t
          then some (record { key = own; utc = t; enabled = false; shared_with = none })
          else some heard
    ]

unfoldable pub event_at :
    Settings → ℤ → Option PrayerDay → PrayerDay → Option PrayerDay → Prayer → Option Event
unfolding fajr_event isha_event
event_at settings serial yesterday times tomorrow fajr =
    Option.map (fajr_event settings serial yesterday) times.fajr_utc
event_at settings serial yesterday times tomorrow isha = elim times.isha_utc [
  | none ↦ none
  | some t ↦ isha_event settings serial tomorrow t
]
event_at settings serial yesterday times tomorrow prayer =
    Option.map
      (λ t. record {
        key = record { day = serial; prayer = prayer };
        utc = t;
        enabled = at settings.enabled prayer;
        shared_with = none;
      })
      (time_at times prayer)

key_in_window : ℤ → EventKey → Bool
key_in_window today key = leb_ℤ (today -ℤ pos 1) key.day && leb_ℤ key.day (today +ℤ pos 1)

unfoldable pub in_window : ℤ → Event → Bool
unfolding key_in_window
in_window today e =
    key_in_window today e.key
    || elim e.shared_with [ none ↦ false | some other ↦ key_in_window today other ]

unfoldable pub keep_in_window : ℤ → Option Event → List Event → List Event
unfolding in_window
keep_in_window today none es = es
keep_in_window today (some e) es = if in_window today e then e ∷ es else es

unfoldable pub prayers : List Prayer
prayers = fajr ∷ dhuhr ∷ asr ∷ maghrib ∷ isha ∷ []

unfoldable pub events_of_day :
    Settings → ℤ → ℤ → Option PrayerDay → PrayerDay → Option PrayerDay → List Prayer → List Event
unfolding event_at keep_in_window
events_of_day settings today serial yesterday times tomorrow [] = []
events_of_day settings today serial yesterday times tomorrow (p ∷ ps) =
    keep_in_window today (event_at settings serial yesterday times tomorrow p)
      (events_of_day settings today serial yesterday times tomorrow ps)

abbrev pub next_day : List PrayerDay → Option PrayerDay
next_day [] = none
next_day (d ∷ ds) = some d

-- The second loop, over the days from `serial`.
unfoldable pub events_from : Settings → ℤ → ℤ → Option PrayerDay → List PrayerDay → List Event
unfolding events_of_day prayers
events_from settings today serial yesterday [] = []
events_from settings today serial yesterday (times ∷ rest) =
    events_of_day settings today serial yesterday times (next_day rest) prayers
    ++ events_from settings today (serial +ℤ pos 1) (some times) rest

conflicts_from : ℤ → List PrayerDay → List ScheduleConflict
unfolding conflict_at
conflicts_from serial [] = []
conflicts_from serial (times ∷ rest) =
    conflict_at serial times (next_day rest) ++ conflicts_from (serial +ℤ pos 1) rest

-- `std::sort` by `utc`. Events at one time stay in order, which `std::sort` leaves open.
unfoldable pub insert_event : Event → List Event → List Event
insert_event e [] = e ∷ []
insert_event e (f ∷ fs) = if ltb_ℤ f.utc e.utc then f ∷ insert_event e fs else e ∷ f ∷ fs

unfoldable pub sort_events : List Event → List Event
unfolding insert_event
sort_events [] = []
sort_events (e ∷ es) = insert_event e (sort_events es)

-- What a successful `rebuild` computes.
unfoldable pub timetable :
    DayCalculator → Settings → CivilDate → Option (List Event × List ScheduleConflict)
unfolding order_days events_from conflicts_from sort_events day_number
timetable calculate settings date =
    let today = day_number date in
    Option.map
      (λ days. (
        sort_events (events_from settings today (today -ℤ pos 2) none days),
        conflicts_from (today -ℤ pos 2) days,
      ))
      (order_days calculate settings today 5 0 no_times
        (record { time = none; index = 0; day = 0 }))
