-- ===== src/Adapter/Output.antt =====
-- The parts of openathan.cpp that drive lights and display: `refresh_light_schedule_`,
-- `update_lights_`, `apply_display_` and `next_visual_prayer`.
use openathan.Base.{
  ℕ, ◌+◌, pos, ◌-ℤ◌, Bool, true, false, not, ◌&&◌, ◌||◌, Option, none, some, ltb, leb, ltb_ℤ, eq_ℤ,
  ◌==◌, if◌then◌else◌,
}
use openathan.Calendar.{day_number}
use openathan.Scheduler.{ClockSample, Event, Fault, Settings, never_consumed}
use openathan.Scheduler.Machine.{validate_schedule}
use openathan.Settings.{SavedSettings}
use openathan.Display.{default_display_brightness_percent}
use openathan.Lights.Mode.{LightMode, LightInputs, light_mode}
use openathan.Lights.Frame.{LightFrame, light_frame}
use openathan.Lights.Schedule as Schedule
use openathan.Nvs.Setup.{SetupStore}
use openathan.Adapter.{Wiring, Adapter, Instant, millis, activated, read}

abbrev pub is_fault : Fault → Bool
is_fault Fault.no_fault = false
is_fault _ = true

abbrev gate_unhealthy : Option SetupStore → Bool
gate_unhealthy none = false
gate_unhealthy (some gate) = not gate.healthy

abbrev pub same_frame : Option LightFrame → LightFrame → Bool
same_frame none f = false
same_frame (some g) f =
    g.red_part == f.red_part
    && g.green_part == f.green_part
    && g.blue_part == f.blue_part
    && g.brightness == f.brightness

module _ {M P O : Type 0} (w : Wiring M P O) where
  abbrev is_playing : Adapter M P O → Bool
  is_playing a = elim a.sequence.backend [ none ↦ false | some p ↦ w.backend.playing p ]

  -- The new light schedule for the settings of prayer, where the day or a jump asks for one.
  unfoldable pub rebuild_lights : Adapter M P O → ClockSample → Settings → Adapter M P O
  unfolding Schedule.rebuild validate_schedule
  rebuild_lights a now settings =
      let built = Schedule.rebuild w.calculator_source a.light_schedule settings now.local_date in
      if validate_schedule w.calculator_source settings now.local_date
      then record a {
        light_day = day_number now.local_date;
        light_schedule = built.1;
        light_schedule_ok = built.0;
      }
      else record a { light_day = day_number now.local_date; light_schedule_ok = false }

  -- `refresh_light_schedule_` with what is saved.
  unfoldable pub refresh_for : Adapter M P O → ClockSample → Option SavedSettings → Adapter M P O
  unfolding rebuild_lights activated day_number
  refresh_for a now none = record a {
    light_last_utc = now.utc;
    light_day = never_consumed;
    light_schedule_ok = false;
  }
  refresh_for a now (some saved) =
      let time_jump =
        ltb_ℤ now.utc a.light_last_utc || ltb_ℤ (pos 2) (now.utc -ℤ a.light_last_utc) in
      let a1 : Adapter M P O = record a { light_last_utc = now.utc } in
      if not (now.valid && activated a && a.settings_service.writable)
      then record a1 { light_day = never_consumed; light_schedule_ok = false }
      else if not (eq_ℤ (day_number now.local_date) a.light_day) || time_jump
      then rebuild_lights a1 now saved.value.prayer
      else a1

  unfoldable pub refresh_light_schedule : Adapter M P O → ClockSample → Adapter M P O
  unfolding refresh_for
  refresh_light_schedule a now = refresh_for a now a.settings_service.saved

  abbrev light_fault : Adapter M P O → ClockSample → Bool
  light_fault a now =
      is_fault a.scheduler.fault
      || not a.settings_service.writable
      || gate_unhealthy a.setup_gate
      || leb 20 a.volume_attempts
      || (now.valid && activated a && not a.light_schedule_ok)

  abbrev light_inputs : Adapter M P O → ClockSample → LightInputs
  light_inputs a now = record {
    maintenance = a.maintenance;
    fault = light_fault a now;
    setup_complete = activated a;
    clock_ready = now.valid;
    playing = is_playing a;
    next_utc = if a.light_schedule_ok then Schedule.next a.light_schedule now.utc else none;
    utc = now.utc;
  }

  unfoldable pub mode_of : Adapter M P O → ClockSample → LightMode
  unfolding light_mode activated Schedule.next
  mode_of a now = elim a.light_preferences.saved [
    | none ↦ LightMode.off
    | some saved ↦ light_mode saved.value (light_inputs a now)
  ]

  -- The end of `update_lights_`, with the frame.
  unfoldable pub show_frame :
      Adapter M P O → (LightFrame → O → Bool × O) → ℕ → LightFrame → Adapter M P O
  show_frame a output now frame =
      let applied = output frame a.outputs in
      if ltb now a.light_retry_at || same_frame a.light_applied frame
      then a
      else if applied.0
      then record a {
        outputs = applied.1;
        light_output_ok = true;
        light_applied = some frame;
        light_retry_at = 0;
      }
      else record a {
        outputs = applied.1;
        light_output_ok = false;
        light_applied = none;
        light_retry_at = now + 1000;
      }

  unfoldable pub light_percent : Adapter M P O → ℕ
  light_percent a = elim a.light_preferences.saved [
    | none ↦ 0
    | some saved ↦ saved.value.brightness_percent
  ]

  -- `update_lights_` past its tests, with the schedule refreshed.
  unfoldable pub light_up :
      Adapter M P O → (LightFrame → O → Bool × O) → ℕ → ClockSample → Adapter M P O
  unfolding show_frame light_percent mode_of light_frame
  light_up a output monotonic_ms now =
      let mode = mode_of a now in
      show_frame (record a { light_mode = mode }) output monotonic_ms
        (light_frame mode (light_percent a) monotonic_ms)

  unfoldable pub update_lights : Adapter M P O → Instant → Adapter M P O
  unfolding light_up refresh_light_schedule read
  update_lights a i = elim w.light_output [
    | none ↦ a
    | some output ↦
        if ltb (millis i) a.light_next_frame
        then a
        else light_up
            (refresh_light_schedule (record a { light_next_frame = millis i + 50 }) (read w a i))
            output (millis i) (read w a i)
  ]

  -- `display_preferences_.brightness_percent()`.
  display_percent : Adapter M P O → ℕ
  display_percent a = elim a.display_preferences.saved [
    | none ↦ default_display_brightness_percent
    | some saved ↦ saved.brightness_percent
  ]

  unfoldable pub apply_display : Adapter M P O → Instant → Adapter M P O
  unfolding display_percent
  apply_display a i = elim w.display_output [
    | none ↦ a
    | some output ↦
        let applied = output (display_percent a) a.outputs in
        if a.maintenance then a else record a {
          outputs = applied.1;
          display_output_ok = applied.0;
          display_next_check = millis i + 1000;
        }
  ]

  unfoldable pub next_visual_prayer : Adapter M P O → ClockSample → Option Event × Adapter M P O
  unfolding refresh_light_schedule Schedule.next_event
  next_visual_prayer a now =
      let a1 = refresh_light_schedule a now in
      (if a1.light_schedule_ok then Schedule.next_event a1.light_schedule now.utc else none, a1)
