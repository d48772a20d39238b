-- ===== src/Adapter/Guarded.antt =====
-- The scheduler is blocked unless the component has settings: `setup` sees to it, and every call
-- keeps it so.
use openathan.Base.{
  ◌≡◌, ◌∙◌, refl, ap, Bool, false, not, ◌&&◌, ◌||◌, Option, none, some, if_both, if_met, inl, inr,
  arith, leb,
}
use openathan.Storage.{Store}
use openathan.Scheduler.{
  Event, EventKey, Scheduler, ClockSample, DurableState, DayCalculator, skip_eq,
}
use openathan.Playback.{Playback}
use openathan.Scheduler.Machine as Machine
use openathan.Scheduler.Machine.{
  persist, skip_rest, skip_from, skip_chosen, allow_playback, block_storage,
}
use openathan.Scheduler.Tick.{Change, idle, wrote, failed}
use openathan.Scheduler.Once.{tick-Change}
use openathan.DuaSequence as DuaSequence
use openathan.DuaSequence.{dua_playback}
use openathan.Settings.{SavedSettings}
use openathan.Adapter.{Wiring, Adapter, Instant, millis, activated, read}
use openathan.Adapter.Output.{update_lights}
use openathan.Adapter.Core.{SameCore, update_lights-SameCore, apply_display-SameCore}
use openathan.Adapter.Control.{
  apply_wanted, apply_volume, apply_volume_of, tick_scheduler, update, loop, loop_lights,
  loop_display, loop_volume, healthy_loop, skip_occurrence, cancel_skip, cancel_occurrence,
  quiesce_for_maintenance,
}
use openathan.Adapter.Sound.{Sound, has_settings, is_blocked, healthy}

-- A scheduler without storage does not get it back.
abbrev pub StaysBlocked : Scheduler → Scheduler → Type 0
StaysBlocked c c' = c.storage_ok ≡ false → c'.storage_ok ≡ false

Change-StaysBlocked :
    {S : Type 0} (store : Store S DurableState) (c : Scheduler) (s : S) (c' : Scheduler) (s' : S)
    → Change store c s c' s'
    → StaysBlocked c c'
Change-StaysBlocked store c s c' s' (idle a b (inl e)) h = e ∙ h
Change-StaysBlocked store c s c' s' (idle a b (inr e)) h = e
Change-StaysBlocked store c s c' s' (wrote a b e f g) h = absurd (ground (arith, a, h))
Change-StaysBlocked store c s c' s' (failed x a b e f g i) h = e

module _ {S : Type 0} (store : Store S DurableState) where
  skip_rest_blocked :
      (c : Scheduler) (s : S) (expected : Option Event)
      → StaysBlocked c (skip_rest store c s expected).1
  unfolding skip_rest
  skip_rest_blocked c s expected h =
      if_met (λ (r : Bool × Scheduler × S). r.1.storage_ok ≡ false)
        (not c.storage_ok || not c.armed) _ (ground (arith, h)) h

  cancel_skip_blocked : (c : Scheduler) (s : S) → StaysBlocked c (Machine.cancel_skip store c s).1
  unfolding Machine.cancel_skip
  cancel_skip_blocked c s h =
      if_met (λ (r : Bool × Scheduler × S). r.1.storage_ok ≡ false) (not c.storage_ok) _
        (ground (arith, h)) h

  skip_next_blocked :
      {P : Type 0} (playback : Playback P) (calculate : DayCalculator) (c : Scheduler) (s : S)
      (p : P) (now : ClockSample) (expected : Option Event)
      → StaysBlocked c (Machine.skip_next store playback calculate c s p now expected).1
  unfolding Machine.skip_next
  skip_next_blocked playback calculate c s p now expected h =
      let t = Machine.tick store playback calculate c s p now in
      skip_rest_blocked t.0 t.1 expected
        (Change-StaysBlocked store c s _ _ (tick-Change store playback calculate c s p now) h)

module _ {M P O : Type 0} where
  pub record Safe (a b : Adapter M P O) : Type 0 where
    pub settings_kept : b.settings_service ≡ a.settings_service
    pub blocked_kept : StaysBlocked a.scheduler b.scheduler

  pub Safe-refl : (a : Adapter M P O) → Safe a a
  Safe-refl a = record { settings_kept = refl; blocked_kept = λ h. h }

  pub Safe-trans : (a b c : Adapter M P O) → Safe a b → Safe b c → Safe a c
  Safe-trans a b c h k = record {
    settings_kept = k.settings_kept ∙ h.settings_kept;
    blocked_kept = λ x. k.blocked_kept (h.blocked_kept x);
  }

  pub SameCore-Safe : (a b : Adapter M P O) → SameCore a b → Safe a b
  SameCore-Safe a b s = record {
    settings_kept = s.same_settings;
    blocked_kept = λ h. ap (λ (c : Scheduler). c.storage_ok) s.same_scheduler ∙ h;
  }

  pub Safe-Sound : (a b : Adapter M P O) → Safe a b → Sound a → Sound b
  Safe-Sound a b s (has_settings h) = has_settings (ap (λ p. healthy p) s.settings_kept ∙ h)
  Safe-Sound a b s (is_blocked h) = is_blocked (s.blocked_kept h)

  pub record_Safe :
      (a : Adapter M P O) (b : Adapter M P O)
      → b.settings_service ≡ a.settings_service
      → b.scheduler.storage_ok ≡ a.scheduler.storage_ok
      → Safe a b
  record_Safe a b h k = record { settings_kept = h; blocked_kept = λ x. k ∙ x }

  module _ (w : Wiring M P O) where
    apply_volume_of-Safe :
        (a : Adapter M P O) (o : Option SavedSettings) → Safe a (apply_volume_of w a o)
    unfolding apply_volume_of apply_wanted allow_playback
    apply_volume_of-Safe a none = Safe-refl a
    apply_volume_of-Safe a (some saved) =
        if_both (Safe a) (a.maintenance || not a.settings_service.writable) (Safe-refl a)
          (record_Safe a _ refl refl)

    pub apply_volume-Safe : (a : Adapter M P O) → Safe a (apply_volume w a)
    unfolding apply_volume
    apply_volume-Safe a = apply_volume_of-Safe a a.settings_service.saved

    tick_scheduler-Safe : (a : Adapter M P O) (i : Instant) → Safe a (tick_scheduler w a i).0
    unfolding tick_scheduler
    tick_scheduler-Safe a i = record {
      settings_kept = refl;
      blocked_kept = Change-StaysBlocked w.state_store a.scheduler a.medium _ _ (
          tick-Change w.state_store (dua_playback w.backend) w.calculator_source a.scheduler
            a.medium a.sequence (read w a i));
    }

    pub lights-Safe : (a : Adapter M P O) (i : Instant) → Safe a (update_lights w a i)
    lights-Safe a i = SameCore-Safe a _ (update_lights-SameCore w a i)

    abbrev AllSafe : Adapter M P O → Adapter M P O × Option Event → Type 0
    AllSafe a r = Safe a r.0

    pub update-Safe : (a : Adapter M P O) (i later : Instant) → Safe a (update w a i later).0
    unfolding update
    update-Safe a i later =
        let a1 = apply_volume w a in
        let t = tick_scheduler w a1 i in
        if_both (AllSafe a) (activated a1)
          (Safe-trans a a1 _ (apply_volume-Safe a)
            (Safe-trans a1 t.0 _ (tick_scheduler-Safe a1 i) (lights-Safe t.0 later)))
          (Safe-trans a a1 _ (apply_volume-Safe a) (lights-Safe a1 later))

    loop_lights-Safe : (a : Adapter M P O) (i : Instant) → Safe a (loop_lights w a i)
    unfolding loop_lights
    loop_lights-Safe a i =
        let a1 : Adapter M P O = record a {
          sequence =
              DuaSequence.tick w.backend
                (DuaSequence.set_enabled w.backend a.sequence (healthy_loop w a)) (millis i);
        } in
        Safe-trans a a1 _ (record_Safe a a1 refl refl) (lights-Safe a1 i)

    loop_display-Safe : (a : Adapter M P O) (i : Instant) → Safe a (loop_display w a i)
    unfolding loop_display
    loop_display-Safe a i =
        if_both (Safe a)
          (not a.maintenance && not a.display_output_ok && leb a.display_next_check (millis i))
          (SameCore-Safe a _ (apply_display-SameCore w a i)) (Safe-refl a)

    loop_volume-Safe : (a : Adapter M P O) (i : Instant) → Safe a (loop_volume w a i)
    unfolding loop_volume
    loop_volume-Safe a i =
        if_both (Safe a) (leb a.next_volume_check (millis i))
          (record {
            settings_kept = (apply_volume-Safe a).settings_kept;
            blocked_kept = (apply_volume-Safe a).blocked_kept;
          })
          (Safe-refl a)

    pub loop-Safe : (a : Adapter M P O) (i : Instant) → Safe a (loop w a i)
    unfolding loop
    loop-Safe a i =
        let lit = loop_lights w a i in
        let shown = loop_display w lit i in
        Safe-trans a lit _ (loop_lights-Safe a i)
          (Safe-trans lit shown _ (loop_display-Safe lit i) (loop_volume-Safe shown i))

    pub skip_occurrence-Safe :
        (a : Adapter M P O) (i : Instant) (expected : Option Event)
        → Safe a (skip_occurrence w a i expected).1
    unfolding skip_occurrence
    skip_occurrence-Safe a i expected =
        if_both (λ (r : Bool × Adapter M P O × Option Event). Safe a r.1) (not (activated a))
          (Safe-refl a)
          (record {
            settings_kept = refl;
            blocked_kept =
                skip_next_blocked w.state_store (dua_playback w.backend) w.calculator_source
                  a.scheduler a.medium a.sequence (read w a i) expected;
          })

    pub cancel_skip-Safe : (a : Adapter M P O) → Safe a (cancel_skip w a).1
    unfolding cancel_skip
    cancel_skip-Safe a =
        if_both (λ (r : Bool × Adapter M P O). Safe a r.1) (not (activated a)) (Safe-refl a)
          (record {
            settings_kept = refl;
            blocked_kept = cancel_skip_blocked w.state_store a.scheduler a.medium;
          })

    pub cancel_occurrence-Safe :
        (a : Adapter M P O) (key : EventKey) → Safe a (cancel_occurrence w a key).1
    unfolding cancel_occurrence
    cancel_occurrence-Safe a key =
        if_both (λ (r : Bool × Adapter M P O). Safe a r.1)
          (skip_eq a.scheduler.state.skip (some key)) (cancel_skip-Safe a) (Safe-refl a)

    pub quiesce-Safe : (a : Adapter M P O) (i : Instant) → Safe a (quiesce_for_maintenance w a i)
    unfolding quiesce_for_maintenance block_storage
    quiesce-Safe a i = record {
      settings_kept = (update_lights-SameCore w _ i).same_settings;
      blocked_kept = λ h. refl;
    }
