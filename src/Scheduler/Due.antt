-- ===== src/Scheduler/Due.antt =====
-- What `Scheduler::tick` must play: an event that the loop finds due makes the tick call `start`,
-- whatever the other events of the timetable are.
use openathan.Base.{
  ◌≡◌, refl, ◌∙◌, ℤ, eq_ℤ, ltb_ℤ, Bool, true, false, not, ◌&&◌, ◌||◌, Option, none, some, List, [],
  ◌∷◌, ◌++◌, ap, Bool-cases, Option-cases, if◌then◌else◌, arith, inl, inr,
}
use mathlib.Core.Option
use mathlib.Core.Option.{some-injective}
use openathan.Calendar.{CivilDate, day_number}
use openathan.Playback.{Playback}
use openathan.Storage.{Store}
use openathan.Scheduler.{
  PerPrayer, EventKey, Event, ClockSample, DayCalculator, DurableState, Scheduler, Fault,
  ScheduleConflict, state_eq,
}
use openathan.Scheduler.Consume.{
  consumed, is_due, past_marks, past_due, consume_past, is_timely, is_skipped,
}
use openathan.Scheduler.Rebuild.{timetable}
use openathan.Scheduler.Play.{candidate_of}
use openathan.Scheduler.Machine.{
  rebuild, raise_all, is_continuous, persist, play_due, finish, refresh_next, settle, tick_built,
  tick, sample_ok, track_of,
}
use openathan.Scheduler.Apart.{all_apart, consumed-past_marks-apart}

-- The timetable that a tick on `now` goes through.
unfoldable pub events_for : DayCalculator → Scheduler → ClockSample → Option (List Event)
unfolding timetable day_number
events_for calculate c now =
    if eq_ℤ c.built_day (day_number now.local_date)
    then some c.events
    else Option.map (λ built. built.0) (timetable calculate c.settings now.local_date)

-- All of the condition of a due event but that it is not handled.
abbrev pub is_ready : ClockSample → ClockSample → Bool → Option EventKey → Event → Bool
is_ready now previous continuous skip e =
    continuous
    && ltb_ℤ previous.utc e.utc
    && is_timely now e
    && e.enabled
    && not (is_skipped skip e)

module _ (now previous : ClockSample) (continuous : Bool) (skip : Option EventKey) where
  -- A due event stays until another takes its place.
  past_due_held :
      (f : Event) (m : PerPrayer ℤ) (d : Event)
      → (e : Event) × (past_due now previous continuous skip f m (some d) ≡ some e)
  unfolding past_due
  past_due_held f m d = elim (Bool-cases (ltb_ℤ now.utc f.utc)) [
    | inl later ↦ (d, rw (later, past_due) refl)
    | inr past ↦ elim (Bool-cases (is_due now previous continuous skip m f)) [
      | inl hit ↦ (f, rw (past, hit, past_due) refl)
      | inr miss ↦ (d, rw (past, miss, past_due) refl)
    ]
  ]

  consume_past_held :
      (es : List Event) (m : PerPrayer ℤ) (due : Option Event) (d : Event)
      → due ≡ some d
      → (e : Event) × ((consume_past now previous continuous skip es m due).1 ≡ some e)
  unfolding consume_past
  consume_past_held [] m due d h = (d, h)
  consume_past_held (f ∷ es) m due d h =
      let kept = past_due_held f m d in
      consume_past_held es (past_marks now f m) (past_due now previous continuous skip f m due)
        kept.0 (ap (past_due now previous continuous skip f m) h ∙ kept.1)

  past_due_ready :
      (e : Event) (m : PerPrayer ℤ) (due : Option Event)
      → ltb_ℤ now.utc e.utc ≡ false
      → consumed e m ≡ false
      → is_ready now previous continuous skip e ≡ true
      → past_due now previous continuous skip e m due ≡ some e
  unfolding past_due is_due
  past_due_ready e m due past fresh ready = ground arith

  -- The loop reaches an event that is due but for its marks, past only events apart from it.
  consume_past_finds :
      (before after : List Event) (e : Event) (m : PerPrayer ℤ) (due : Option Event)
      → all_apart e before ≡ true
      → ltb_ℤ now.utc e.utc ≡ false
      → consumed e m ≡ false
      → is_ready now previous continuous skip e ≡ true
      → (found : Event) × ((consume_past now previous continuous skip (before ++ e ∷ after) m due).1
          ≡ some found)
  unfolding consume_past all_apart
  consume_past_finds [] after e m due h past fresh ready =
      consume_past_held after (past_marks now e m) (past_due now previous continuous skip e m due) e
        (past_due_ready e m due past fresh ready)
  consume_past_finds (f ∷ before) after e m due h past fresh ready =
      consume_past_finds before after e (past_marks now f m)
        (past_due now previous continuous skip f m due) (ground arith) past
        (consumed-past_marks-apart now m e f (ground arith) fresh) ready

module _ {P : Type 0} (playback : Playback P) where
  play_due_plays :
      (c : Scheduler) (p : P) (e : Event)
      → c.playback_allowed ≡ true
      → playback.ready p ≡ true
      → ((play_due playback c p (some e)).2 ≡ some e)
        × ((play_due playback c p (some e)).1 ≡ (playback.start (track_of e) p).1)
  unfolding play_due
  play_due_plays c p e h k = rw (h, k) (refl, refl)

  finish_plays :
      {S : Type 0} (c : Scheduler) (s : S) (p : P) (now : ClockSample) (e : Event)
      → c.playback_allowed ≡ true
      → playback.ready p ≡ true
      → ((finish playback true c s p now (some e)).3 ≡ some e)
        × ((finish playback true c s p now (some e)).2 ≡ (playback.start (track_of e) p).1)
  unfolding finish refresh_next
  finish_plays c s p now e h k =
      play_due_plays (refresh_next (record c { previous = now; armed = true }) now.utc) p e h k

module _ {S P : Type 0} (store : Store S DurableState) (playback : Playback P) where
  persist_works :
      (c : Scheduler) (s : S) (d : DurableState)
      → ((x : DurableState) → (store.save x s).0 ≡ true)
      → ((persist store c s d).0 ≡ true)
        × ((persist store c s d).1.playback_allowed ≡ c.playback_allowed)
  unfolding persist
  persist_works c s d works = elim (Bool-cases (state_eq d c.state)) [
    | inl same ↦ rw (same, persist) (refl, refl)
    | inr new ↦ rw (new, works d, persist) (refl, refl)
  ]

  -- What a tick does that calls `start` for `e`.
  abbrev pub Starts : P → Event → Scheduler × S × P × Option Event → Type 0
  Starts p e t = (t.3 ≡ some e) × (t.2 ≡ (playback.start (track_of e) p).1)

  settle-Starts :
      (c : Scheduler) (s : S) (p : P) (now : ClockSample) (m : PerPrayer ℤ) (due : Option Event)
      (e : Event)
      → ((x : DurableState) → (store.save x s).0 ≡ true)
      → c.playback_allowed ≡ true
      → playback.ready p ≡ true
      → due ≡ some e
      → Starts p e (settle store playback c s p now m due)
  unfolding settle
  settle-Starts c s p now m due e works allowed ready h =
      let kept = persist store c s (candidate_of c now m) in
      let w = persist_works c s (candidate_of c now m) works in
      rw (h, w.0, settle) (finish_plays playback kept.1 kept.2 p now e (w.1 ∙ allowed) ready)

  tick_built-Starts :
      (c : Scheduler) (s : S) (p : P) (now : ClockSample) (continuous : Bool)
      (before after : List Event) (e : Event)
      → ((x : DurableState) → (store.save x s).0 ≡ true)
      → c.playback_allowed ≡ true
      → playback.ready p ≡ true
      → c.events ≡ before ++ e ∷ after
      → all_apart e before ≡ true
      → ltb_ℤ now.utc e.utc ≡ false
      → consumed e (raise_all c.state.consumed_through (day_number now.local_date)) ≡ false
      → is_ready now c.previous continuous c.state.skip e ≡ true
      → (found : Event) × Starts p found (tick_built store playback c s p now continuous)
  unfolding tick_built
  tick_built-Starts c s p now continuous before after e works allowed ready es h past fresh timely =
      let raised = raise_all c.state.consumed_through (day_number now.local_date) in
      let found =
        consume_past_finds now c.previous continuous c.state.skip before after e raised none h past
          fresh timely in
      let passed = consume_past now c.previous continuous c.state.skip c.events raised none in
      (
        found.0,
        settle-Starts c s p now passed.0 passed.1 found.0 works allowed ready (
            ap (λ x. (consume_past now c.previous continuous c.state.skip x raised none).1) es
            ∙ found.1),
      )

-- A timetable that can be built, and the scheduler with it.
abbrev with_timetable : Scheduler → CivilDate → List Event × List ScheduleConflict → Scheduler
with_timetable c date built = record c {
  built_day = day_number date;
  events = built.0;
  conflicts = built.1;
}

rebuild_ok :
    (calculate : DayCalculator) (c : Scheduler) (date : CivilDate)
    (built : List Event × List ScheduleConflict)
    → timetable calculate c.settings date ≡ some built
    → rebuild calculate c date ≡ (true, with_timetable c date built)
unfolding rebuild
rebuild_ok calculate c date built h = rw (h, rebuild) refl

module _ {S P : Type 0} (store : Store S DurableState) (playback : Playback P)
    (calculate : DayCalculator) where
  -- The promise of polling: on a valid sample that follows the previous one continuously, a
  -- configured scheduler with working storage (loads and, in this state, all saves succeed), allowed
  -- playback and a ready backend, whose timetable is built or can be built, calls start for an event
  -- if the timetable has one that lies after the previous sample, not in the future and at most two
  -- seconds back, is enabled, not skipped and not handled, and whose identities the events before it
  -- in the timetable do not share or overtake. The backend's new state is then what start returns.
  pub tick-Starts :
      (c : Scheduler) (s : S) (p : P) (now : ClockSample) (before after : List Event) (e : Event)
      → sample_ok now ≡ true
      → c.configured ≡ true
      → c.storage_ok ≡ true
      → ((x : DurableState) → (store.save x s).0 ≡ true)
      → c.playback_allowed ≡ true
      → playback.ready p ≡ true
      → events_for calculate c now ≡ some (before ++ e ∷ after)
      → all_apart e before ≡ true
      → ltb_ℤ now.utc e.utc ≡ false
      → consumed e (raise_all c.state.consumed_through (day_number now.local_date)) ≡ false
      → is_ready now c.previous (is_continuous c now) c.state.skip e ≡ true
      → (found : Event) × Starts store playback p found (tick store playback calculate c s p now)
  unfolding tick events_for rebuild
  tick-Starts c s p now before after e sound conf ok works allowed ready es h past fresh timely =
      let c1 : Scheduler = record c { clock_ready = sample_ok now } in
      let go : (not (sample_ok now) || not c.configured || not c.storage_ok) ≡ false =
        ground arith in
      elim (Bool-cases (eq_ℤ c.built_day (day_number now.local_date))) [
        | inl same ↦
            let r =
              tick_built-Starts store playback c1 s p now (is_continuous c now) before after e works
                allowed ready (some-injective _ _ (rw same at es)) h past fresh timely in
            rw (go, same, tick) r
        | inr stale ↦ elim (Option-cases (timetable calculate c.settings now.local_date)) [
          | inl bad ↦ absurd (cc (rw (stale, bad) at es))
          | inr (built, good) ↦
              let c2 : Scheduler = record c1 {
                built_day = day_number now.local_date;
                events = built.0;
                conflicts = built.1;
                fault = Fault.no_fault;
              } in
              let r =
                tick_built-Starts store playback c2 s p now (is_continuous c now) before after e
                  works allowed ready (some-injective _ _ (rw (stale, good) at es)) h past fresh
                  timely in
              rw (go, stale, rebuild_ok calculate c1 now.local_date built good, tick) r
        ]
      ]
