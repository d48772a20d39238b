-- ===== src/Adapter/Core.antt =====
-- Lights and display touch nothing that decides about playback: `SameCore` is what they leave alone.
use openathan.Base.{
  ℕ, ◌+◌, ◌≡◌, ◌∙◌, refl, Bool, not, ◌&&◌, ◌||◌, Option, none, some, ltb, ltb_ℤ, eq_ℤ, pos, ◌-ℤ◌,
  if_both, Option-cases, inl, inr, arith,
}
use openathan.Calendar.{day_number}
use openathan.Scheduler.{ClockSample, Settings}
use openathan.Scheduler.Machine.{validate_schedule}
use openathan.Settings.{SavedSettings}
use openathan.Lights.Frame.{LightFrame, light_frame}
use openathan.Adapter.{Wiring, Adapter, Instant, millis, activated, read}
use openathan.Adapter.Output.{
  rebuild_lights, refresh_for, refresh_light_schedule, show_frame, light_up, update_lights,
  apply_display, mode_of, light_percent,
}

pub record SameCore {M P O : Type 0} (a b : Adapter M P O) : Type 0 where
  pub same_medium : b.medium ≡ a.medium
  pub same_scheduler : b.scheduler ≡ a.scheduler
  pub same_settings : b.settings_service ≡ a.settings_service
  pub same_sequence : b.sequence ≡ a.sequence
  pub same_gate : b.setup_gate ≡ a.setup_gate
  pub same_maintenance : b.maintenance ≡ a.maintenance

module _ {M P O : Type 0} where
  SameCore-refl : (a : Adapter M P O) → SameCore a a
  SameCore-refl a = record {
    same_medium = refl;
    same_scheduler = refl;
    same_settings = refl;
    same_sequence = refl;
    same_gate = refl;
    same_maintenance = refl;
  }

  SameCore-trans : (a b c : Adapter M P O) → SameCore a b → SameCore b c → SameCore a c
  SameCore-trans a b c h k = record {
    same_medium = k.same_medium ∙ h.same_medium;
    same_scheduler = k.same_scheduler ∙ h.same_scheduler;
    same_settings = k.same_settings ∙ h.same_settings;
    same_sequence = k.same_sequence ∙ h.same_sequence;
    same_gate = k.same_gate ∙ h.same_gate;
    same_maintenance = k.same_maintenance ∙ h.same_maintenance;
  }

  module _ (w : Wiring M P O) where
    rebuild_lights-SameCore :
        (a : Adapter M P O) (now : ClockSample) (settings : Settings)
        → SameCore a (rebuild_lights w a now settings)
    unfolding rebuild_lights
    rebuild_lights-SameCore a now settings =
        if_both (SameCore a) (validate_schedule w.calculator_source settings now.local_date)
          (ground arith) (ground arith)

    refresh_for-SameCore :
        (a : Adapter M P O) (now : ClockSample) (o : Option SavedSettings)
        → SameCore a (refresh_for w a now o)
    unfolding refresh_for
    refresh_for-SameCore a now none = ground arith
    refresh_for-SameCore a now (some saved) =
        let jump = ltb_ℤ now.utc a.light_last_utc || ltb_ℤ (pos 2) (now.utc -ℤ a.light_last_utc) in
        let a1 : Adapter M P O = record a { light_last_utc = now.utc } in
        if_both (SameCore a) (not (now.valid && activated a && a.settings_service.writable))
          (ground arith)
          (if_both (SameCore a) (not (eq_ℤ (day_number now.local_date) a.light_day) || jump)
            (SameCore-trans a a1 _ (ground arith)
              (rebuild_lights-SameCore a1 now saved.value.prayer))
            (ground arith))

    pub refresh-SameCore :
        (a : Adapter M P O) (now : ClockSample) → SameCore a (refresh_light_schedule w a now)
    unfolding refresh_light_schedule
    refresh-SameCore a now = refresh_for-SameCore a now a.settings_service.saved

    show_frame-SameCore :
        (a : Adapter M P O) (output : LightFrame → O → Bool × O) (now : ℕ) (frame : LightFrame)
        → SameCore a (show_frame w a output now frame)
    unfolding show_frame
    show_frame-SameCore a output now frame = ground arith

    light_up-SameCore :
        (a : Adapter M P O) (output : LightFrame → O → Bool × O) (ms : ℕ) (now : ClockSample)
        → SameCore a (light_up w a output ms now)
    unfolding light_up
    light_up-SameCore a output ms now =
        SameCore-trans a (record a { light_mode = mode_of w a now }) _ (ground arith)
          (show_frame-SameCore (record a { light_mode = mode_of w a now }) output ms
            (light_frame (mode_of w a now) (light_percent w a) ms))

    pub update_lights-SameCore :
        (a : Adapter M P O) (i : Instant) → SameCore a (update_lights w a i)
    unfolding update_lights
    update_lights-SameCore a i = elim (Option-cases w.light_output) [
      | inl h ↦ rw (h, update_lights) (SameCore-refl a)
      | inr (output, h) ↦
          let a1 : Adapter M P O = record a { light_next_frame = millis i + 50 } in
          let a2 = refresh_light_schedule w a1 (read w a i) in
          rw (h, update_lights)
            (if_both (SameCore a) (ltb (millis i) a.light_next_frame) (SameCore-refl a) (
              SameCore-trans a a1 _ (ground arith) (
                SameCore-trans a1 a2 _ (refresh-SameCore a1 (read w a i))
                  (light_up-SameCore a2 output (millis i) (read w a i)))))
    ]

    pub apply_display-SameCore :
        (a : Adapter M P O) (i : Instant) → SameCore a (apply_display w a i)
    unfolding apply_display
    apply_display-SameCore a i = elim (Option-cases w.display_output) [
      | inl none_there ↦ rw (none_there, apply_display) (SameCore-refl a)
      | inr (output, there) ↦ rw (there, apply_display) (ground arith)
    ]
