-- ===== src/Scheduler.antt =====
-- lib/openathan-core/include/openathan/scheduler.h: the scheduler's data.
pub mod Valid
pub mod Rebuild
pub mod Timetable
pub mod Consume
pub mod Machine
pub mod Marks
pub mod Tick
pub mod Play
pub mod Once
pub mod Apart
pub mod Due
pub mod System
pub mod Guards
pub mod NoRepeat
use openathan.Calendar.{CivilDate, date}
use openathan.Base.{
  ℕ, ℤ, pos, ◌≡◌, Bool, true, false, ◌&&◌, ◌||◌, not, Option, none, some, List, [], ◌∷◌, eq_ℤ,
  leb_ℤ, ltb_ℤ, max_ℤ, negsuc, if◌then◌else◌,
}

pub data Prayer : Type 0 where
  fajr dhuhr asr maghrib isha : Prayer

-- A `std::array<A, 5>` indexed by prayers.
pub record PerPrayer (A : Type 0) : Type 0 where
  pub of_fajr : A
  pub of_dhuhr : A
  pub of_asr : A
  pub of_maghrib : A
  pub of_isha : A

abbrev pub at : {A : Type 0} → PerPrayer A → Prayer → A
at t fajr = t.of_fajr
at t dhuhr = t.of_dhuhr
at t asr = t.of_asr
at t maghrib = t.of_maghrib
at t isha = t.of_isha

abbrev pub put_at : {A : Type 0} → PerPrayer A → Prayer → A → PerPrayer A
put_at t fajr a = record t { of_fajr = a }
put_at t dhuhr a = record t { of_dhuhr = a }
put_at t asr a = record t { of_asr = a }
put_at t maghrib a = record t { of_maghrib = a }
put_at t isha a = record t { of_isha = a }

abbrev pub map_all : {A B : Type 0} → (A → B) → PerPrayer A → PerPrayer B
map_all f t = record {
  of_fajr = f t.of_fajr;
  of_dhuhr = f t.of_dhuhr;
  of_asr = f t.of_asr;
  of_maghrib = f t.of_maghrib;
  of_isha = f t.of_isha;
}

pub record EventKey : Type 0 where
  pub day : ℤ
  pub prayer : Prayer

pub record Event : Type 0 where
  pub key : EventKey
  pub utc : ℤ
  pub enabled : Bool
  -- A coincident Isha/Fajr occurrence retains both durable identities.
  pub shared_with : Option EventKey

pub data ConflictResolution : Type 0 where
  shared_playback isha_suppressed : ConflictResolution

pub record ScheduleConflict : Type 0 where
  pub isha_key : EventKey
  pub isha_utc : ℤ
  pub fajr_key : EventKey
  pub fajr_utc : ℤ
  pub resolution : ConflictResolution

-- `method` and `high_latitude` are the numbers under the enums, which a decoded record may set to
-- any byte; latitude and longitude are the bits of doubles.
pub record Settings : Type 0 where
  pub latitude : ℕ
  pub longitude : ℕ
  pub method : ℕ
  pub hanafi : Bool
  pub high_latitude : ℕ
  pub offsets : List ℤ
  pub enabled : PerPrayer Bool

pub record ClockSample : Type 0 where
  pub valid : Bool
  pub utc : ℤ
  pub monotonic_ms : ℕ
  pub local_date : CivilDate
  pub subsecond_ms : ℕ

-- `ClockSample previous_;`
abbrev pub no_sample : ClockSample
no_sample = record {
  valid = false;
  utc = pos 0;
  monotonic_ms = 0;
  local_date = date 0 0 0;
  subsecond_ms = 0;
}

-- `std::array<std::optional<int64_t>, 6>`; absent solar events stay absent.
pub record PrayerDay : Type 0 where
  pub fajr_utc : Option ℤ
  pub sunrise_utc : Option ℤ
  pub dhuhr_utc : Option ℤ
  pub asr_utc : Option ℤ
  pub maghrib_utc : Option ℤ
  pub isha_utc : Option ℤ

-- `PrayerDay{}`.
abbrev pub no_times : PrayerDay
no_times = record {
  fajr_utc = none;
  sunrise_utc = none;
  dhuhr_utc = none;
  asr_utc = none;
  maghrib_utc = none;
  isha_utc = none;
}

abbrev pub times_of : PrayerDay → List (Option ℤ)
times_of d = d.fajr_utc ∷ d.sunrise_utc ∷ d.dhuhr_utc ∷ d.asr_utc ∷ d.maghrib_utc ∷ d.isha_utc ∷ []

-- The entry of a prayer: index 0 for Fajr, and one more than the prayer for the others.
abbrev pub time_at : PrayerDay → Prayer → Option ℤ
time_at d fajr = d.fajr_utc
time_at d dhuhr = d.dhuhr_utc
time_at d asr = d.asr_utc
time_at d maghrib = d.maghrib_utc
time_at d isha = d.isha_utc

-- `DayCalculator::calculate`: its answer and, where that is true, its out-parameter.
abbrev pub DayCalculator : Type 0
DayCalculator = Settings → CivilDate → Option PrayerDay

-- `std::numeric_limits<int32_t>::min()`.
abbrev pub never_consumed : ℤ
never_consumed = negsuc 2_147_483_647

pub record DurableState : Type 0 where
  pub consumed_through : PerPrayer ℤ
  pub skip : Option EventKey

abbrev pub initial_state : DurableState
initial_state = record {
  consumed_through = record {
    of_fajr = never_consumed;
    of_dhuhr = never_consumed;
    of_asr = never_consumed;
    of_maghrib = never_consumed;
    of_isha = never_consumed;
  };
  skip = none;
}

pub data Fault : Type 0 where
  no_fault invalid_settings invalid_schedule storage audio_unavailable playback_rejected : Fault

pub record Scheduler : Type 0 where
  pub settings : Settings
  pub state : DurableState
  pub events : List Event
  pub conflicts : List ScheduleConflict
  pub next : Option Event
  pub previous : ClockSample
  pub built_day : ℤ
  pub storage_ok : Bool
  pub configured : Bool
  pub armed : Bool
  pub clock_ready : Bool
  pub playback_allowed : Bool
  pub fault : Fault

abbrev pub prayer_eq : Prayer → Prayer → Bool
prayer_eq fajr fajr = true
prayer_eq dhuhr dhuhr = true
prayer_eq asr asr = true
prayer_eq maghrib maghrib = true
prayer_eq isha isha = true
prayer_eq _ _ = false

abbrev pub key_eq : EventKey → EventKey → Bool
key_eq a b = eq_ℤ a.day b.day && prayer_eq a.prayer b.prayer

abbrev pub skip_eq : Option EventKey → Option EventKey → Bool
skip_eq none none = true
skip_eq (some a) (some b) = key_eq a b
skip_eq _ _ = false

abbrev pub marks_eq : PerPrayer ℤ → PerPrayer ℤ → Bool
marks_eq a b =
    eq_ℤ a.of_fajr b.of_fajr
    && eq_ℤ a.of_dhuhr b.of_dhuhr
    && eq_ℤ a.of_asr b.of_asr
    && eq_ℤ a.of_maghrib b.of_maghrib
    && eq_ℤ a.of_isha b.of_isha

abbrev pub state_eq : DurableState → DurableState → Bool
state_eq a b = marks_eq a.consumed_through b.consumed_through && skip_eq a.skip b.skip
