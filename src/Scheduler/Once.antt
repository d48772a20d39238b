-- ===== src/Scheduler/Once.antt =====
-- The promise of `Scheduler::tick` about playback, and its effect on the durable state.
use openathan.Base.{
  ◌≡◌, inl, inr, refl, sym, subst, ◌∙◌, ℤ, ◌≤ℤ◌, ◌<ℤ◌, eq_ℤ, Bool, true, false, not, ◌||◌, Option,
  none, some, Bool-cases, Option-cases, arith,
}
use openathan.Calendar.{CivilDate, day_number}
use openathan.Playback.{Playback}
use openathan.Storage.{Store}
use openathan.Scheduler.{
  PerPrayer, EventKey, Event, ClockSample, DayCalculator, DurableState, Scheduler, Fault,
}
use openathan.Scheduler.Consume.{consumed, is_due, is_timely, is_skipped, consume_past}
use openathan.Scheduler.Rebuild.{timetable}
use openathan.Scheduler.Machine.{rebuild, raise_all, is_continuous, tick_built, tick, sample_ok}
use openathan.Scheduler.Marks.{
  LeMarks-trans, Covers, consumed_mono, raise_all_le, consume_past_le, consume_past-Picked,
}
use openathan.Scheduler.Tick.{Change, idle, SameStorage, Change-same}
use openathan.Scheduler.Play.{settle-Change, settle_request}

-- What holds where a tick that began in `c` and ended in `c'` called `start` for `e`.
pub record Plays (c : Scheduler) (now : ClockSample) (e : Event) (c' : Scheduler) : Type 0 where
  -- Neither identity of the event was handled before, and both are afterwards.
  pub unhandled : consumed e c.state.consumed_through ≡ false
  pub covered : Covers c'.state.consumed_through e
  pub stored : c'.storage_ok ≡ true
  pub after_previous : c.previous.utc <ℤ e.utc
  pub not_early : e.utc ≤ℤ now.utc
  pub timely : is_timely now e ≡ true
  pub enabled : e.enabled ≡ true
  pub unskipped : is_skipped c.state.skip e ≡ false
  pub allowed : c.playback_allowed ≡ true

is_due_parts :
    (now previous : ClockSample) (continuous : Bool) (skip : Option EventKey) (m : PerPrayer ℤ)
    (e : Event)
    → is_due now previous continuous skip m e ≡ true
    → (consumed e m ≡ false)
      × (continuous ≡ true)
      × (previous.utc <ℤ e.utc)
      × (is_timely now e ≡ true)
      × (e.enabled ≡ true)
      × (is_skipped skip e ≡ false)
unfolding is_due
is_due_parts now previous continuous skip m e h = ground arith

module _ {S P : Type 0} (store : Store S DurableState) (playback : Playback P) where
  tick_built-Change :
      (c : Scheduler) (s : S) (p : P) (now : ClockSample) (continuous : Bool)
      → c.storage_ok ≡ true
      → Change store c s
          (tick_built store playback c s p now continuous).0
          (tick_built store playback c s p now continuous).1
  unfolding tick_built
  tick_built-Change c s p now continuous ok =
      let raised = raise_all c.state.consumed_through (day_number now.local_date) in
      settle-Change store playback c s p now _ _ ok (
        LeMarks-trans c.state.consumed_through raised _
          (raise_all_le c.state.consumed_through (day_number now.local_date))
          (consume_past_le now c.previous continuous c.state.skip c.events raised none))

  tick_built_request :
      (c : Scheduler) (s : S) (p : P) (now : ClockSample) (continuous : Bool) (e : Event)
      → c.storage_ok ≡ true
      → (tick_built store playback c s p now continuous).3 ≡ some e
      → Plays c now e (tick_built store playback c s p now continuous).0
        × (continuous ≡ true)
        × (playback.ready p ≡ true)
  unfolding tick_built
  tick_built_request c s p now continuous e ok h =
      let raised = raise_all c.state.consumed_through (day_number now.local_date) in
      let passed = consume_past now c.previous continuous c.state.skip c.events raised none in
      let r = settle_request store playback c s p now passed.0 passed.1 e h in
      elim (consume_past-Picked now c.previous continuous c.state.skip c.events raised none e r.0) [
        | inl absent ↦ absurd (cc absent)
        | inr picked ↦
            let parts =
              is_due_parts now c.previous continuous c.state.skip picked.met e picked.due in
            (
              record {
                unhandled =
                    consumed_mono c.state.consumed_through picked.met e
                      (LeMarks-trans c.state.consumed_through raised picked.met
                        (raise_all_le c.state.consumed_through (day_number now.local_date))
                        picked.before_le)
                      parts.0;
                covered = subst (λ m. Covers m e) (sym r.1) picked.covered;
                stored = r.2 ∙ ok;
                after_previous = parts.2;
                not_early = ground (arith, picked.past);
                timely = parts.3;
                enabled = parts.4;
                unskipped = parts.5;
                allowed = r.3;
              },
              parts.1,
              r.4,
            )
      ]

-- The members that a tick reads after `rebuild` and that `rebuild` leaves alone.
record Kept (a b : Scheduler) : Type 0 where
  storage : SameStorage a b
  same_previous : a.previous ≡ b.previous
  same_allowed : a.playback_allowed ≡ b.playback_allowed

rebuild-Kept :
    (calculate : DayCalculator) (c : Scheduler) (date : CivilDate)
    → Kept c (rebuild calculate c date).1
unfolding rebuild
rebuild-Kept calculate c date = elim (Option-cases (timetable calculate c.settings date)) [
  | inl h ↦ rw (h, rebuild) (ground arith)
  | inr (t, h) ↦ rw (h, rebuild) (ground arith)
]

Plays-Kept :
    (c d : Scheduler) (now : ClockSample) (e : Event) (c' : Scheduler)
    → Kept c d
    → Plays d now e c'
    → Plays c now e c'
Plays-Kept c d now e c' k p = record {
  unhandled =
      subst (λ x. consumed e x.consumed_through ≡ false) (sym k.storage.same_state) p.unhandled;
  covered = p.covered;
  stored = p.stored;
  after_previous =
      subst (λ (x : ClockSample). x.utc <ℤ e.utc) (sym k.same_previous) p.after_previous;
  not_early = p.not_early;
  timely = p.timely;
  enabled = p.enabled;
  unskipped =
      subst (λ (x : DurableState). is_skipped x.skip e ≡ false) (sym k.storage.same_state)
        p.unskipped;
  allowed = k.same_allowed ∙ p.allowed;
}

module _ {S P : Type 0} (store : Store S DurableState) (playback : Playback P)
    (calculate : DayCalculator) where
  -- Every tick leaves the durable state and the medium alone, or writes to both a state whose
  -- watermarks are no lower, or fails to write such a state, keeps the old one in memory and marks
  -- storage as failed.
  pub tick-Change :
      (c : Scheduler) (s : S) (p : P) (now : ClockSample)
      → Change store c s
          (tick store playback calculate c s p now).0
          (tick store playback calculate c s p now).1
  unfolding tick
  tick-Change c s p now =
      let c1 : Scheduler = record c { clock_ready = sample_ok now } in
      let built = rebuild calculate c1 now.local_date in
      let k = rebuild-Kept calculate c1 now.local_date in
      elim (Bool-cases (not (sample_ok now) || not c.configured || not c.storage_ok)) [
        | inl stop ↦ rw (stop, tick) (idle refl refl (inl refl))
        | inr go ↦
            let ok : c.storage_ok ≡ true = ground arith in
            elim (Bool-cases (eq_ℤ c.built_day (day_number now.local_date))) [
              | inl same ↦
                  rw (go, same, tick)
                    (Change-same store c1 c s _ _ _ (record { same_state = refl; same_ok = refl })
                      (record { same_state = refl; same_ok = refl })
                      (tick_built-Change store playback c1 s p now (is_continuous c now) ok))
              | inr stale ↦ elim (Bool-cases built.0) [
                | inl good ↦
                    rw (go, stale, good, tick)
                      (Change-same store (record (built.1) { fault = Fault.no_fault }) c s _ _ _
                        (ground (arith, k.storage)) (record { same_state = refl; same_ok = refl })
                        (tick_built-Change store playback
                          (record (built.1) { fault = Fault.no_fault }) s p now
                          (is_continuous c now) (ground (arith, k.storage))))
                | inr bad ↦
                    rw (go, stale, bad, tick)
                      (idle (ground (arith, k.storage)) refl (inl (ground (arith, k.storage))))
              ]
            ]
      ]

  -- A tick that calls start for an event does so on a valid clock sample that follows the previous
  -- one continuously, for a configured scheduler with working storage, allowed playback and a ready
  -- backend; the event is enabled and not skipped, lies after the previous sample and at most two
  -- seconds back; neither of its identities was handled before, and both are handled in the state
  -- that is then in memory, with storage still working.
  pub tick-Plays :
      (c : Scheduler) (s : S) (p : P) (now : ClockSample) (e : Event)
      → (tick store playback calculate c s p now).3 ≡ some e
      → Plays c now e (tick store playback calculate c s p now).0
        × (sample_ok now ≡ true)
        × (c.configured ≡ true)
        × (c.storage_ok ≡ true)
        × (is_continuous c now ≡ true)
        × (playback.ready p ≡ true)
  unfolding tick
  tick-Plays c s p now e h =
      let c1 : Scheduler = record c { clock_ready = sample_ok now } in
      let built = rebuild calculate c1 now.local_date in
      let k = rebuild-Kept calculate c1 now.local_date in
      elim (Bool-cases (not (sample_ok now) || not c.configured || not c.storage_ok)) [
        | inl stop ↦ absurd (cc (rw (stop, tick) at h))
        | inr go ↦
            let ok : c.storage_ok ≡ true = ground arith in
            elim (Bool-cases (eq_ℤ c.built_day (day_number now.local_date))) [
              | inl same ↦
                  let r =
                    tick_built_request store playback c1 s p now (is_continuous c now) e ok
                      (rw (go, same, tick) at h) in
                  rw (go, same, tick)
                    (
                      Plays-Kept c c1 now e _
                          (record {
                            storage = record { same_state = refl; same_ok = refl };
                            same_previous = refl;
                            same_allowed = refl;
                          })
                          r.0,
                      ground arith,
                      ground arith,
                      ok,
                      r.1,
                      r.2,
                    )
              | inr stale ↦ elim (Bool-cases built.0) [
                | inl good ↦
                    let r =
                      tick_built_request store playback
                        (record (built.1) { fault = Fault.no_fault }) s p now (is_continuous c now)
                        e (ground (arith, k.storage)) (rw (go, stale, good, tick) at h) in
                    rw (go, stale, good, tick)
                      (
                        Plays-Kept c (record (built.1) { fault = Fault.no_fault }) now e _
                            (ground (arith, k)) r.0,
                        ground arith,
                        ground arith,
                        ok,
                        r.1,
                        r.2,
                      )
                | inr bad ↦ absurd (cc (rw (go, stale, bad, tick) at h))
              ]
            ]
      ]
