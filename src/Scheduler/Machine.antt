-- ===== src/Scheduler/Machine.antt =====
-- The members of `Scheduler` in lib/openathan-core/src/scheduler.cpp. The clock's sample is an
-- argument of each call that reads it; the store's medium is of type `S` and the backend's state of
-- type `P`, and a call that changes them returns them. Differences of 64-bit times are taken in
-- the integers, where the source's do not overflow.
use openathan.Base.{
  ℕ, ◌-◌, ℤ, pos, ◌+ℤ◌, ◌-ℤ◌, ◌*ℤ◌, Bool, true, false, not, ◌&&◌, ◌||◌, Option, none, some, List,
  [], ◌∷◌, if◌then◌else◌, ltb, leb, ltb_ℤ, leb_ℤ, eq_ℤ, max_ℤ, abs, is_some,
}
use openathan.Calendar.{CivilDate, valid_date, day_number}
use openathan.Playback.{Track, Playback}
use openathan.Storage.{LoadResult, Store}
use openathan.Scheduler.{
  Prayer, PerPrayer, map_all, EventKey, Event, ScheduleConflict, Settings, ClockSample, no_sample,
  DayCalculator, PrayerDay, never_consumed, DurableState, initial_state, Fault, Scheduler, state_eq,
  key_eq, skip_eq, prayer_eq,
}
use openathan.Scheduler.Valid.{valid_settings, default_settings}
use openathan.Scheduler.Rebuild.{timetable}
use openathan.Scheduler.Consume.{matches, consumed, consume_past}

-- The constructor and the member initialisers.
abbrev pub constructed : Scheduler
constructed = record {
  settings = default_settings;
  state = initial_state;
  events = [];
  conflicts = [];
  next = none;
  previous = no_sample;
  built_day = never_consumed;
  storage_ok = false;
  configured = false;
  armed = false;
  clock_ready = false;
  playback_allowed = true;
  fault = Fault.no_fault;
}

unfoldable pub configure : Scheduler → Settings → Bool × Scheduler
unfolding valid_settings
configure c settings =
    let cleared : Scheduler = record c {
      armed = false;
      built_day = never_consumed;
      next = none;
      events = [];
      conflicts = [];
      configured = false;
    } in
    if not (valid_settings settings)
    then (
      false,
      record cleared { fault = if c.storage_ok then Fault.invalid_settings else Fault.storage },
    )
    else (
      true,
      record cleared {
        settings = settings;
        configured = true;
        fault = if c.storage_ok then Fault.no_fault else Fault.storage;
      },
    )

unfoldable pub block_storage : Scheduler → Scheduler
block_storage c = record c { storage_ok = false; armed = false; next = none; fault = Fault.storage }

unfoldable pub allow_playback : Scheduler → Bool → Scheduler
allow_playback c allowed = record c { playback_allowed = allowed }

unfoldable pub rebuild : DayCalculator → Scheduler → CivilDate → Bool × Scheduler
unfolding timetable day_number
rebuild calculate c date = elim (timetable calculate c.settings date) [
  | none ↦ (false, record c { built_day = never_consumed; events = []; conflicts = [] })
  | some (events, conflicts) ↦
      (true, record c { built_day = day_number date; events = events; conflicts = conflicts })
]

-- The first event that is still to be heard.
unfoldable pub next_event : List Event → PerPrayer ℤ → ℤ → Option Event
unfolding consumed
next_event [] marks now = none
next_event (e ∷ es) marks now =
    if e.enabled && ltb_ℤ now e.utc && not (consumed e marks)
    then some e
    else next_event es marks now

unfoldable pub refresh_next : Scheduler → ℤ → Scheduler
unfolding next_event
refresh_next c now = record c { next = next_event c.events c.state.consumed_through now }

-- The skip is kept while an event of the timetable can still use it, or while it lies beyond.
abbrev can_skip : DurableState → ℤ → EventKey → Event → Bool
can_skip candidate now key e =
    matches e key && e.enabled && ltb_ℤ now e.utc && not (consumed e candidate.consumed_through)

abbrev find_skip : DurableState → ℤ → EventKey → List Event → Bool
find_skip candidate now key [] = false
find_skip candidate now key (e ∷ es) =
    can_skip candidate now key e || find_skip candidate now key es

unfoldable pub settle_skip : DurableState → ℤ → ℤ → List Event → DurableState
unfolding matches consumed
settle_skip candidate today now events = elim candidate.skip [
  | none ↦ candidate
  | some key ↦
      if not (find_skip candidate now key events) && leb_ℤ key.day (today +ℤ pos 1)
      then record candidate { skip = none }
      else candidate
]

-- The watermarks that a tick begins with.
abbrev pub raise_all : PerPrayer ℤ → ℤ → PerPrayer ℤ
raise_all marks today = map_all (λ mark. max_ℤ mark (today -ℤ pos 2)) marks

-- Whether this sample follows the previous one as polling would have it.
unfoldable pub is_continuous : Scheduler → ClockSample → Bool
is_continuous c now =
    let utc_delta = now.utc -ℤ c.previous.utc in
    let backwards = ltb now.monotonic_ms c.previous.monotonic_ms in
    let elapsed : ℕ = if backwards then 0 else now.monotonic_ms - c.previous.monotonic_ms in
    let wall_elapsed = utc_delta *ℤ 1000 +ℤ pos now.subsecond_ms -ℤ pos c.previous.subsecond_ms in
    c.armed
    && not backwards
    && leb elapsed 3000
    && leb_ℤ (pos 0) utc_delta
    && leb_ℤ utc_delta (pos 4)
    && leb_ℤ (pos 0) wall_elapsed
    && leb (abs (wall_elapsed -ℤ pos elapsed)) 250

abbrev pub track_of : Event → Track
track_of e = if prayer_eq e.key.prayer Prayer.fajr then Track.fajr else Track.normal

abbrev pub sample_ok : ClockSample → Bool
sample_ok now = now.valid && valid_date now.local_date && ltb now.subsecond_ms 1000

-- Whether a display's selection is still the one that a skip would take.
abbrev pub selected : Event → Option Event → Bool
selected e none = true
selected e (some x) = key_eq x.key e.key && eq_ℤ x.utc e.utc && skip_eq x.shared_with e.shared_with

unfoldable pub load_ok : LoadResult → Bool
load_ok LoadResult.error = false
load_ok LoadResult.empty = true
load_ok LoadResult.loaded = true

-- `begin` up to its call of `configure`.
unfoldable pub with_loaded : Scheduler → LoadResult → DurableState → Scheduler
unfolding load_ok
with_loaded c result found = record c {
  state = found;
  storage_ok = load_ok result;
  fault = if load_ok result then c.fault else Fault.storage;
}

module _ {S : Type 0} (store : Store S DurableState) where
  unfoldable pub begin : Scheduler → S → Settings → Bool × Scheduler
  unfolding configure load_ok with_loaded
  begin c s settings =
      let found = store.load initial_state s in
      let configured = configure (with_loaded c found.0 found.1) settings in
      (configured.0 && load_ok found.0, configured.1)

  unfoldable pub persist : Scheduler → S → DurableState → Bool × Scheduler × S
  persist c s candidate =
      if state_eq candidate c.state
      then (true, c, s)
      else if not (store.save candidate s).0
      then (
        false,
        record c { storage_ok = false; armed = false; next = none; fault = Fault.storage },
        (store.save candidate s).1,
      )
      else (true, record c { state = candidate }, (store.save candidate s).1)

  unfoldable pub skip_chosen : Scheduler → S → Option Event → Event → Bool × Scheduler × S
  unfolding persist
  skip_chosen c s expected e =
      if not (selected e expected)
      then (false, c, s)
      else if is_some c.state.skip
      then (true, c, s)
      else persist c s (record (c.state) { skip = some e.key })

  unfoldable pub skip_from : Scheduler → S → Option Event → Option Event → Bool × Scheduler × S
  unfolding skip_chosen
  skip_from c s expected none = (false, c, s)
  skip_from c s expected (some e) = skip_chosen c s expected e

  -- `skip_next` after its call of `tick`.
  unfoldable pub skip_rest : Scheduler → S → Option Event → Bool × Scheduler × S
  unfolding skip_from
  skip_rest c s expected =
      if not c.storage_ok || not c.armed then (false, c, s) else skip_from c s expected c.next

  unfoldable pub cancel_skip : Scheduler → S → Bool × Scheduler × S
  unfolding persist
  cancel_skip c s =
      if not c.storage_ok then (false, c, s) else persist c s (record (c.state) { skip = none })

module _ {P : Type 0} (playback : Playback P) where
  -- The end of `tick`, from `previous_ = now`.
  -- The last part is the event for which `start` was called.
  unfoldable pub play_due : Scheduler → P → Option Event → Scheduler × P × Option Event
  play_due c p due =
      if not c.playback_allowed || not (playback.ready p)
      then (record c { fault = Fault.audio_unavailable }, p, none)
      else elim due [
        | none ↦ (
          record c {
            fault = elim c.fault [ Fault.audio_unavailable ↦ Fault.no_fault | other ↦ other ];
          },
          p,
          none,
        )
        | some e ↦ (
          record c {
            fault =
                if (playback.start (track_of e) p).0
                then Fault.no_fault
                else Fault.playback_rejected;
          },
          (playback.start (track_of e) p).1,
          some e,
        )
      ]

-- `tick` after its call of `persist`, which gives the first three arguments.
unfoldable pub finish :
    {S P : Type 0}
    → Playback P
    → Bool
    → Scheduler
    → S
    → P
    → ClockSample
    → Option Event
    → Scheduler × S × P × Option Event
unfolding play_due refresh_next
finish playback false c s p now due = (c, s, p, none)
finish playback true c s p now due =
    let played =
      play_due playback (refresh_next (record c { previous = now; armed = true }) now.utc) p due in
    (played.0, s, played.1, played.2)

module _ {S P : Type 0} (store : Store S DurableState) (playback : Playback P) where
  -- `tick` over a timetable of the day, with the result of the consuming loop.
  unfoldable pub settle :
      Scheduler
      → S
      → P
      → ClockSample
      → PerPrayer ℤ
      → Option Event
      → Scheduler × S × P × Option Event
  unfolding persist finish settle_skip
  settle c s p now marks due =
      let kept = persist store c s (
        settle_skip (record { consumed_through = marks; skip = c.state.skip })
          (day_number now.local_date) now.utc c.events) in
      finish playback kept.0 kept.1 kept.2 p now due

  unfoldable pub tick_built :
      Scheduler → S → P → ClockSample → Bool → Scheduler × S × P × Option Event
  unfolding settle consume_past
  tick_built c s p now continuous =
      let passed =
        consume_past now c.previous continuous c.state.skip c.events
          (raise_all c.state.consumed_through (day_number now.local_date)) none in
      settle c s p now passed.0 passed.1

module _ {S P : Type 0} (store : Store S DurableState) (playback : Playback P)
    (calculate : DayCalculator) where
  unfoldable pub tick : Scheduler → S → P → ClockSample → Scheduler × S × P × Option Event
  tick c s p now =
      let ready = sample_ok now in
      let c1 : Scheduler = record c { clock_ready = ready } in
      let continuous = is_continuous c now in
      let built = rebuild calculate c1 now.local_date in
      if not ready || not c.configured || not c.storage_ok
      then (record c1 { armed = false; next = none }, s, p, none)
      else if eq_ℤ c.built_day (day_number now.local_date)
      then tick_built store playback c1 s p now continuous
      else if not built.0
      then (
        record (built.1) {
          events = [];
          next = none;
          armed = false;
          fault = Fault.invalid_schedule;
        },
        s,
        p,
        none,
      )
      else tick_built store playback (record (built.1) { fault = Fault.no_fault }) s p now
          continuous

  unfoldable pub skip_next :
      Scheduler → S → P → ClockSample → Option Event → Bool × Scheduler × S × P × Option Event
  skip_next c s p now expected =
      let t = tick c s p now in
      let r = skip_rest store t.0 t.1 expected in (r.0, r.1, r.2, t.2, t.3)

-- `armed_ && configured_ && storage_ok_ && playback_allowed_ && playback_.ready()`.
unfoldable pub automatic_ready : {P : Type 0} → Playback P → Scheduler → P → Bool
automatic_ready playback c p =
    c.armed && c.configured && c.storage_ok && c.playback_allowed && playback.ready p

-- The parts of `status` that are not members as they stand.
pub record SchedulerStatus : Type 0 where
  pub clock_ready : Bool
  pub automatic : Bool
  pub playing : Bool
  pub next : Option Event
  pub skip : Option EventKey
  pub fault : Fault
  pub conflicts : List ScheduleConflict

unfoldable pub status : {P : Type 0} → Playback P → Scheduler → P → SchedulerStatus
unfolding automatic_ready
status playback c p = record {
  clock_ready = c.clock_ready;
  automatic = automatic_ready playback c p;
  playing = playback.playing p;
  next = c.next;
  skip = c.state.skip;
  fault = c.fault;
  conflicts = c.conflicts;
}

-- A scratch timetable never loads or saves consumption and never calls the backend: it is built on
-- a scheduler of its own, which is dropped.
unfoldable pub validate_schedule : DayCalculator → Settings → CivilDate → Bool
unfolding configure rebuild
validate_schedule calculate settings date =
    let (done, scratch) = configure constructed settings in
    valid_date date && done && (rebuild calculate scratch date).0

-- `preview`, with its out-parameters where it returns true.
unfoldable pub preview :
    DayCalculator → Settings → CivilDate → Option (PrayerDay × List Event × List ScheduleConflict)
unfolding configure rebuild
preview calculate settings date =
    let (done, scratch) = configure constructed settings in
    let (built, scratch') = rebuild calculate scratch date in
    if not (valid_date date) || not done || not built
    then none
    else elim (calculate settings date) [
      | none ↦ none
      | some day ↦ some (day, scratch'.events, scratch'.conflicts)
    ]
