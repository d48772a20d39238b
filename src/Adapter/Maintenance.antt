-- ===== src/Adapter/Maintenance.antt =====
-- What `maintenance_` shuts off: once the component is quiesced, no call of it reaches the medium,
-- the scheduler or `start` of the backend.
use openathan.Base.{
  ℕ, ◌≡◌, ◌∙◌, refl, ap, sym, subst, Bool, true, false, not, ◌&&◌, ◌||◌, Option, none, some, leb,
  if_both, arith, if_true, if_false,
}
use openathan.Scheduler.{Scheduler}
use openathan.Scheduler.Machine.{block_storage}
use openathan.DuaSequence as DuaSequence
use openathan.DuaSequence.{Sequence, Phase, idle, tick_from, stop_backend, cancel_followup}
use openathan.Playback.{Playback}
use openathan.Settings.{SavedSettings}
use openathan.Adapter.{Wiring, Adapter, Instant, millis, activated}
use openathan.Adapter.Output.{update_lights}
use openathan.Adapter.Core.{SameCore, update_lights-SameCore, apply_display-SameCore}
use openathan.Adapter.Control.{
  apply_volume, apply_volume_of, update, loop, loop_lights, loop_display, loop_volume, healthy_loop,
  stop,
}

-- A backend that has been asked for nothing but to stop.
pub data Halted {P : Type 0} (inner : Playback P) (before : Option P) : Option P → Type 0 where
  untouched : Halted inner before before
  halted : (now : Option P) → Halted inner before now → Halted inner before (stop_backend inner now)

module _ {M P O : Type 0} (w : Wiring M P O) where
  -- The component is in maintenance its sequence is idle and its scheduler blocked.
  pub record InMaintenance (a : Adapter M P O) : Type 0 where
    pub in_maintenance : a.maintenance ≡ true
    pub is_idle : a.sequence.phase ≡ idle
    pub is_blocked : block_storage a.scheduler ≡ a.scheduler

  -- What has not changed since `a`, where the component still is in maintenance.
  pub record Quiet (a b : Adapter M P O) : Type 0 where
    pub same_medium : b.medium ≡ a.medium
    pub same_scheduler : b.scheduler ≡ a.scheduler
    pub same_settings : b.settings_service ≡ a.settings_service
    pub stays : InMaintenance b
    pub backend_halted : Halted w.backend a.sequence.backend b.sequence.backend

  pub Quiet-refl : (a : Adapter M P O) → InMaintenance a → Quiet a a
  Quiet-refl a m = record {
    same_medium = refl;
    same_scheduler = refl;
    same_settings = refl;
    stays = m;
    backend_halted = untouched;
  }

  Halted-trans :
      (x y z : Option P) → Halted w.backend x y → Halted w.backend y z → Halted w.backend x z
  Halted-trans x y z h untouched = h
  Halted-trans x y z h (halted now k) = halted now (Halted-trans x y now h k)

  pub Quiet-trans : (a b c : Adapter M P O) → Quiet a b → Quiet b c → Quiet a c
  Quiet-trans a b c h k = record {
    same_medium = k.same_medium ∙ h.same_medium;
    same_scheduler = k.same_scheduler ∙ h.same_scheduler;
    same_settings = k.same_settings ∙ h.same_settings;
    stays = k.stays;
    backend_halted =
        Halted-trans a.sequence.backend b.sequence.backend c.sequence.backend h.backend_halted
          k.backend_halted;
  }

  pub SameCore-Quiet : (a b : Adapter M P O) → InMaintenance a → SameCore a b → Quiet a b
  SameCore-Quiet a b m s = record {
    same_medium = s.same_medium;
    same_scheduler = s.same_scheduler;
    same_settings = s.same_settings;
    stays = record {
      in_maintenance = s.same_maintenance ∙ m.in_maintenance;
      is_idle = ap (λ (q : Sequence P). q.phase) s.same_sequence ∙ m.is_idle;
      is_blocked =
          subst (λ (c : Scheduler). block_storage c ≡ c) (sym s.same_scheduler) m.is_blocked;
    };
    backend_halted =
        subst (λ (q : Sequence P). Halted w.backend a.sequence.backend q.backend)
          (sym s.same_sequence) untouched;
  }

  pub activated_not : (a : Adapter M P O) → InMaintenance a → activated a ≡ false
  unfolding activated
  activated_not a m = ground (arith, m.in_maintenance)

  apply_volume_of_quiet :
      (a : Adapter M P O) (o : Option SavedSettings) → InMaintenance a → apply_volume_of w a o ≡ a
  unfolding apply_volume_of
  apply_volume_of_quiet a none m = refl
  apply_volume_of_quiet a (some saved) m =
      if_true (a.maintenance || not a.settings_service.writable) _ _
        (ground (arith, m.in_maintenance))

  pub apply_volume_quiet : (a : Adapter M P O) → InMaintenance a → apply_volume w a ≡ a
  unfolding apply_volume
  apply_volume_quiet a m = apply_volume_of_quiet a a.settings_service.saved m

  pub update_quiet :
      (a : Adapter M P O) (i later : Instant)
      → InMaintenance a
      → update w a i later ≡ (update_lights w a later, none)
  unfolding update
  update_quiet a i later m =
      rw (apply_volume_quiet a m) (if_false (activated a) _ _ (activated_not a m))

  -- A sequence that stays idle, over the same backend.
  record Rests (q r : Sequence P) : Type 0 where
    idles : r.phase ≡ idle
    same_backend : r.backend ≡ q.backend

  set_enabled-Rests :
      (q : Sequence P) (on : Bool)
      → q.phase ≡ idle
      → Rests q (DuaSequence.set_enabled w.backend q on)
  unfolding DuaSequence.set_enabled cancel_followup
  set_enabled-Rests q true h = record { idles = h; same_backend = refl }
  set_enabled-Rests q false h = rw h (record { idles = refl; same_backend = refl })

  tick_from-Rests :
      (q : Sequence P) (d : Bool) (now : ℕ) (o : Option P)
      → q.phase ≡ idle
      → Rests q (tick_from w.backend q d now o)
  tick_from-Rests q d now none h = record { idles = h; same_backend = refl }
  tick_from-Rests q d now (some p) h = rw h (record { idles = refl; same_backend = refl })

  tick-Rests :
      (q : Sequence P) (now : ℕ) → q.phase ≡ idle → Rests q (DuaSequence.tick w.backend q now)
  unfolding DuaSequence.tick
  tick-Rests q now h =
      let r = tick_from-Rests (record q { last_tick = now }) _ now q.backend h in
      record { idles = r.idles; same_backend = r.same_backend }

  loop_lights-Quiet :
      (a : Adapter M P O) (i : Instant) → InMaintenance a → Quiet a (loop_lights w a i)
  unfolding loop_lights
  loop_lights-Quiet a i m =
      let q = DuaSequence.set_enabled w.backend a.sequence (healthy_loop w a) in
      let r = set_enabled-Rests a.sequence (healthy_loop w a) m.is_idle in
      let t = tick-Rests q (millis i) r.idles in
      let a1 : Adapter M P O = record a { sequence = DuaSequence.tick w.backend q (millis i) } in
      Quiet-trans a a1 _
        (record {
          same_medium = refl;
          same_scheduler = refl;
          same_settings = refl;
          stays = record {
            in_maintenance = m.in_maintenance;
            is_idle = t.idles;
            is_blocked = m.is_blocked;
          };
          backend_halted =
              subst (Halted w.backend a.sequence.backend) (sym (t.same_backend ∙ r.same_backend))
                untouched;
        })
        (SameCore-Quiet a1 _
          (record {
            in_maintenance = m.in_maintenance;
            is_idle = t.idles;
            is_blocked = m.is_blocked;
          })
          (update_lights-SameCore w a1 i))

  loop_display-Quiet :
      (a : Adapter M P O) (i : Instant) → InMaintenance a → Quiet a (loop_display w a i)
  unfolding loop_display
  loop_display-Quiet a i m =
      if_both (Quiet a)
        (not a.maintenance && not a.display_output_ok && leb a.display_next_check (millis i))
        (SameCore-Quiet a _ m (apply_display-SameCore w a i)) (Quiet-refl a m)

  loop_volume-Quiet :
      (a : Adapter M P O) (i : Instant) → InMaintenance a → Quiet a (loop_volume w a i)
  unfolding loop_volume
  loop_volume-Quiet a i m =
      let same = apply_volume_quiet a m in
      if_both (Quiet a) (leb a.next_volume_check (millis i))
        (SameCore-Quiet a _ m (record {
          same_medium = ap (λ (x : Adapter M P O). x.medium) same;
          same_scheduler = ap (λ (x : Adapter M P O). x.scheduler) same;
          same_settings = ap (λ (x : Adapter M P O). x.settings_service) same;
          same_sequence = ap (λ (x : Adapter M P O). x.sequence) same;
          same_gate = ap (λ (x : Adapter M P O). x.setup_gate) same;
          same_maintenance = ap (λ (x : Adapter M P O). x.maintenance) same;
        }))
        (Quiet-refl a m)

  pub loop-Quiet : (a : Adapter M P O) (i : Instant) → InMaintenance a → Quiet a (loop w a i)
  unfolding loop
  loop-Quiet a i m =
      let lit = loop_lights-Quiet a i m in
      let shown =
        Quiet-trans a (loop_lights w a i) _ lit
          (loop_display-Quiet (loop_lights w a i) i lit.stays) in
      Quiet-trans a (loop_display w (loop_lights w a i) i) _ shown
        (loop_volume-Quiet (loop_display w (loop_lights w a i) i) i shown.stays)

  pub stop-Quiet : (a : Adapter M P O) → InMaintenance a → Quiet a (stop w a)
  unfolding stop DuaSequence.stop
  stop-Quiet a m = record {
    same_medium = refl;
    same_scheduler = refl;
    same_settings = refl;
    stays = record { in_maintenance = m.in_maintenance; is_idle = refl; is_blocked = m.is_blocked };
    backend_halted = halted a.sequence.backend untouched;
  }
