-- ===== src/Lights/Schedule.antt =====
-- `LightSchedule`: the raw calculated times of three days, independent of the scheduler's history.
pub mod Next
use openathan.Base.{
  ℕ, zero, suc, ◌+◌, ◌-◌, ℤ, pos, ◌+ℤ◌, ◌-ℤ◌, Bool, true, false, not, ◌&&◌, ◌||◌, Option, none,
  some, List, [], ◌∷◌, ltb, leb, ltb_ℤ, eq_ℤ, ◌==◌, if◌then◌else◌, get_or, set, replicate, ◌/◌, ◌%◌,
}
use openathan.Calendar.{CivilDate, valid_date, day_number, civil_date}
use openathan.Scheduler.{
  Prayer, fajr, dhuhr, asr, maghrib, isha, PerPrayer, at, EventKey, Event, Settings, PrayerDay,
  DayCalculator,
}
use openathan.Scheduler.Valid.{valid_settings}
use openathan.Scheduler.Rebuild.{same_time}

pub record LightSchedule : Type 0 where
  pub times : List (Option ℤ)
  pub previous_isha : Option ℤ
  pub following_fajr : Option ℤ
  pub first_day : ℤ
  pub enabled : PerPrayer Bool

abbrev pub no_light_times : List (Option ℤ)
no_light_times = replicate 15 none

-- `times_[at++] = calculated[index]` for the five prayers.
put_times : List (Option ℤ) → ℕ → PrayerDay → List (Option ℤ)
put_times ts n d =
    set
      (set (set (set (set ts n d.fajr_utc) (n + 1) d.dhuhr_utc) (n + 2) d.asr_utc) (n + 3)
        d.maghrib_utc)
      (n + 4) d.isha_utc

-- A calculated day: the first and the last are guards, and the others fill the times from `n`.
store_day : ℕ → ℕ → PrayerDay → LightSchedule → LightSchedule
unfolding put_times
store_day d n day s =
    if d == 0
    then record s { previous_isha = day.isha_utc }
    else if d == 4
    then record s { following_fajr = day.fajr_utc }
    else record s { times = put_times s.times n day }

-- `at` after the day: the guard days leave it, whether they are calculated or not.
next_at : ℕ → ℕ → ℕ
next_at d n = if leb 1 d && leb d 3 then n + 5 else n

-- The loop over the five days from `d`, `left` of them, with the next free place `n`.
fill_days : DayCalculator → Settings → ℤ → ℕ → ℕ → ℕ → LightSchedule → Bool × LightSchedule
unfolding store_day next_at
fill_days calculate settings serial zero d n s = (true, s)
fill_days calculate settings serial (suc left) d n s =
    let day = civil_date (serial -ℤ pos 2 +ℤ pos d) in
    let skipped = fill_days calculate settings serial left (d + 1) (next_at d n) s in
    let filled : Bool × LightSchedule = elim (calculate settings day) [
      | none ↦ (false, record s { times = no_light_times })
      | some times ↦
          fill_days calculate settings serial left (d + 1) (next_at d n) (store_day d n times s)
    ] in
    if not (valid_date day) then skipped else filled

unfoldable pub rebuild : DayCalculator → LightSchedule → Settings → CivilDate → Bool × LightSchedule
unfolding fill_days
rebuild calculate s settings date =
    let cleared = record s {
      times = no_light_times;
      previous_isha = none;
      following_fajr = none;
    } in
    let serial = day_number date in
    let filled =
      fill_days calculate settings serial 5 0 0
        (record cleared { first_day = serial -ℤ pos 1; enabled = settings.enabled }) in
    if not (valid_date date) || not (valid_settings settings) then (false, cleared) else filled

-- `!result || *time < *result`.
abbrev pub improves : ℤ → Option ℤ → Bool
improves t none = true
improves t (some r) = ltb_ℤ t r

-- The loop of `next`, with the result so far.
unfoldable pub earliest : ℤ → Option ℤ → List (Option ℤ) → Option ℤ
earliest utc result [] = result
earliest utc result (none ∷ ts) = earliest utc result ts
earliest utc result (some t ∷ ts) =
    earliest utc (if ltb_ℤ utc t && improves t result then some t else result) ts

unfoldable pub next : LightSchedule → ℤ → Option ℤ
unfolding earliest
next s utc = earliest utc none s.times

abbrev pub improves_at : List (Option ℤ) → ℤ → ℕ → Bool
improves_at ts t n = n == 15 || improves t (get_or ts n none)

-- The loop of `next_event` over the rest of the times `ts` from `i`, with the place so far; 15
-- stands for none.
unfoldable pub earliest_at : List (Option ℤ) → ℤ → ℕ → ℕ → List (Option ℤ) → ℕ
earliest_at ts utc n i [] = n
earliest_at ts utc n i (none ∷ rest) = earliest_at ts utc n (i + 1) rest
earliest_at ts utc n i (some t ∷ rest) =
    earliest_at ts utc (if ltb_ℤ utc t && improves_at ts t n then i else n) (i + 1) rest

-- `static_cast<Prayer>(i % 5)`.
abbrev prayer_at : ℕ → Prayer
prayer_at i =
    let r = i % 5 in
    if r == 0
    then fajr
    else if r == 1
    then dhuhr
    else if r == 2
    then asr
    else if r == 3
    then maghrib
    else isha

key_at : LightSchedule → ℕ → EventKey
key_at s i = record { day = s.first_day +ℤ pos (i / 5); prayer = prayer_at i }

-- The event `e` after `share(isha, fajr)`.
share : LightSchedule → Event → EventKey → EventKey → Event
share s e isha_key fajr_key =
    let fajr_on = s.enabled.of_fajr in
    let isha_on = s.enabled.of_isha in
    if not fajr_on && isha_on
    then record e { key = isha_key; shared_with = some fajr_key; enabled = fajr_on || isha_on }
    else record e { key = fajr_key; shared_with = some isha_key; enabled = fajr_on || isha_on }

-- `event` before its identity is shared or suppressed.
plain : LightSchedule → ℕ → ℤ → Event
unfolding key_at
plain s n t = record {
  key = key_at s n;
  utc = t;
  enabled = at s.enabled (prayer_at n);
  shared_with = none;
}

-- `following && *times_[at] > *following`.
abbrev overtaken : Option ℤ → ℤ → Bool
overtaken none t = false
overtaken (some f) t = ltb_ℤ f t

fajr_event : LightSchedule → ℕ → ℤ → Event
unfolding share plain
fajr_event s n t =
    let e = plain s n t in
    let previous = if n == 0 then s.previous_isha else get_or s.times (n - 1) none in
    if same_time previous (some t)
    then share s e (record { day = e.key.day -ℤ pos 1; prayer = isha }) e.key
    else e

isha_event : LightSchedule → ℕ → ℤ → Event
unfolding share plain
isha_event s n t =
    let e = plain s n t in
    let following = if ltb (n + 1) 15 then get_or s.times (n + 1) none else s.following_fajr in
    if same_time following (some t)
    then share s e e.key (record { day = e.key.day +ℤ pos 1; prayer = fajr })
    else if overtaken following t
    then record e { enabled = false }
    else e

unfoldable pub event_of : LightSchedule → ℕ → Option ℤ → Option Event
unfolding fajr_event isha_event
event_of s n none = none
event_of s n (some t) =
    some (
      if n % 5 == 0 then fajr_event s n t else if n % 5 == 4 then isha_event s n t else plain s n t)

unfoldable pub next_event : LightSchedule → ℤ → Option Event
unfolding event_of earliest_at
next_event s utc =
    let n = earliest_at s.times utc 15 0 s.times in
    if n == 15 then none else event_of s n (get_or s.times n none)
