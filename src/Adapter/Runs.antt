-- ===== src/Adapter/Runs.antt =====
-- Runs of the component from `setup` on.
use openathan.Base.{
  ℕ, ◌≡◌, refl, Bool, true, false, not, ◌&&◌, ◌||◌, Option, none, some, List, [], ◌∷◌, is_some,
  if_both, if_cases, arith,
}
use openathan.Storage.{Store}
use openathan.Scheduler.{Event, never_consumed}
use openathan.Scheduler.Machine as Machine
use openathan.Scheduler.Machine.{block_storage, allow_playback}
use openathan.Lights.{LightSettings}
use openathan.Settings.{SavedSettings, DeviceSettings}
use openathan.Settings.Service as Service
use openathan.Display.Service as Display
use openathan.Adapter.{Wiring, Adapter, Instant, activated, read}
use openathan.Adapter.Output.{next_visual_prayer}
use openathan.Adapter.Core.{refresh-SameCore, apply_display-SameCore}
use openathan.Adapter.Control.{apply_volume, stop, finish_setup, reload_schedule, reload_of}
use openathan.Adapter.Change.{
  adjust_volume, change_dua, change_time_format, change_speaker_name, change_display, change_lights,
  shown,
}
use openathan.Adapter.Start.{
  Defaults, setup, begin_preferences, first_settings, begin_gate, begin_settings, begin_scheduler,
}
use openathan.Adapter.Steps.{
  Op, apply, run, updates, loops, stops, skips, cancels, cancels_occurrence, finishes_setup,
  reloads, quiesces, settings_changes, volume_adjusts, dua_changes, time_format_changes,
  speaker_name_changes, display_changes, lights_changes, visual_asks,
}
use openathan.Adapter.Sound.{Sound, has_settings, is_blocked, healthy}
use openathan.Adapter.Guarded.{
  Safe, Safe-refl, Safe-trans, Safe-Sound, SameCore-Safe, record_Safe, apply_volume-Safe,
  update-Safe, loop-Safe, skip_occurrence-Safe, cancel_skip-Safe, cancel_occurrence-Safe,
  quiesce-Safe, lights-Safe,
}
use openathan.Adapter.Reached.{change_settings-Sound, adjust_volume_of-Sound, finish_setup_of-Safe}

begin_healthy :
    {S : Type 0} (st : Store S SavedSettings) (defaults : DeviceSettings) (s : S)
    → (Service.begin st defaults s).0 ≡ true
    → healthy (Service.begin st defaults s).1 ≡ true
unfolding Service.begin
begin_healthy st defaults s h = ground arith

module _ {M P O : Type 0} where
  abbrev SafeAnswer : {A : Type 0} → Adapter M P O → A × Adapter M P O → Type 0
  SafeAnswer a r = Safe a r.1

module _ {M P O : Type 0} (w : Wiring M P O) where
  reload_of-Sound :
      (a : Adapter M P O) (i later : Instant) (o : Option SavedSettings)
      → a.settings_service.saved ≡ o
      → Sound a
      → Sound (reload_of w a i later o).0
  unfolding reload_of
  reload_of-Sound a i later none e h = h
  reload_of-Sound a i later (some saved) e h =
      let begun = Machine.begin w.state_store a.scheduler a.medium saved.value.prayer in
      let a1 : Adapter M P O = record a {
        light_day = never_consumed;
        scheduler = allow_playback begun.1 (a.volume_applied && activated a);
      } in
      if_cases (λ (r : Adapter M P O × Option Event). Sound r.0)
        (a.maintenance || not a.settings_service.writable) (λ stop. h)
        (λ go. Safe-Sound a1 _ (update-Safe w a1 i later) (has_settings (ground (arith, e, go))))

  change_dua-Safe :
      (a : Adapter M P O) (on : Bool) (revision : ℕ) → Safe a (change_dua w a on revision).1
  unfolding change_dua
  change_dua-Safe a on revision =
      if_both (SafeAnswer a) a.maintenance (Safe-refl a) (record_Safe a _ refl refl)

  change_time_format-Safe :
      (a : Adapter M P O) (hours revision : ℕ) → Safe a (change_time_format w a hours revision).1
  unfolding change_time_format
  change_time_format-Safe a hours revision =
      if_both (SafeAnswer a) a.maintenance (Safe-refl a) (record_Safe a _ refl refl)

  change_speaker_name-Safe :
      (a : Adapter M P O) (name : List ℕ) (revision : ℕ)
      → Safe a (change_speaker_name w a name revision).1
  unfolding change_speaker_name
  change_speaker_name-Safe a name revision =
      if_both (SafeAnswer a) a.maintenance (Safe-refl a) (record_Safe a _ refl refl)

  change_display-Safe :
      (a : Adapter M P O) (percent revision : ℕ) (i : Instant)
      → Safe a (change_display w a percent revision i).1
  unfolding change_display
  change_display-Safe a percent revision i =
      let r = Display.update w.display_store a.display_preferences a.medium percent revision in
      let a1 : Adapter M P O = record a { display_preferences = r.1; medium = r.2 } in
      if_both (SafeAnswer a) (not (is_some w.display_output) || a.maintenance) (Safe-refl a) (
        Safe-trans a a1 _ (record_Safe a a1 refl refl) (
          if_both (Safe a1) (shown r.0) (SameCore-Safe a1 _ (apply_display-SameCore w a1 i))
            (Safe-refl a1)))

  change_lights-Safe :
      (a : Adapter M P O) (value : LightSettings) (revision : ℕ) (i : Instant)
      → Safe a (change_lights w a value revision i).1
  unfolding change_lights
  change_lights-Safe a value revision i =
      if_both (SafeAnswer a) (not (is_some w.light_output) || a.maintenance) (Safe-refl a)
        (Safe-trans a _ _ (record_Safe a _ refl refl) (lights-Safe w _ i))

  stop-Safe : (a : Adapter M P O) → Safe a (stop w a)
  unfolding stop
  stop-Safe a = record_Safe a _ refl refl

  next_visual_prayer-Safe :
      (a : Adapter M P O) (i : Instant) → Safe a (next_visual_prayer w a (read w a i)).1
  unfolding next_visual_prayer
  next_visual_prayer-Safe a i = SameCore-Safe a _ (refresh-SameCore w a (read w a i))

  begin_scheduler-Sound :
      (a : Adapter M P O) (settings_ok : Bool) (d : Defaults)
      → (settings_ok ≡ true → healthy a.settings_service ≡ true)
      → Sound (begin_scheduler w a settings_ok d)
  unfolding begin_scheduler allow_playback block_storage
  begin_scheduler-Sound a true d h = has_settings (h refl)
  begin_scheduler-Sound a false d h = is_blocked refl

  begin_settings_healthy :
      (a : Adapter M P O) (gate_ok : Bool) (defaults : DeviceSettings)
      → (begin_settings w a gate_ok defaults).0 ≡ true
      → healthy (begin_settings w a gate_ok defaults).1.settings_service ≡ true
  unfolding begin_settings
  begin_settings_healthy a true defaults h = begin_healthy w.settings_store defaults a.medium h
  begin_settings_healthy a false defaults h = absurd (cc h)

  setup-Sound :
      (a : Adapter M P O) (d : Defaults) (first i later : Instant)
      → Sound (setup w a d first i later).0
  unfolding setup
  setup-Sound a d first i later =
      let a1 = begin_preferences w a first in
      let gate = begin_gate w a1 in
      let started = begin_settings w gate.1 gate.0 (first_settings w a1 d) in
      let a2 = begin_scheduler w started.1 started.0 d in
      Safe-Sound (apply_volume w a2) _ (update-Safe w (apply_volume w a2) i later) (
        Safe-Sound a2 _ (apply_volume-Safe w a2) (
          begin_scheduler-Sound started.1 started.0 d
            (begin_settings_healthy gate.1 gate.0 (first_settings w a1 d))))

  apply-Sound : (op : Op) (a : Adapter M P O) → Sound a → Sound (apply w op a).0
  unfolding apply finish_setup reload_schedule adjust_volume
  apply-Sound (updates i later) a h = Safe-Sound a _ (update-Safe w a i later) h
  apply-Sound (loops i) a h = Safe-Sound a _ (loop-Safe w a i) h
  apply-Sound stops a h = Safe-Sound a _ (stop-Safe a) h
  apply-Sound (skips i expected) a h = Safe-Sound a _ (skip_occurrence-Safe w a i expected) h
  apply-Sound cancels a h = Safe-Sound a _ (cancel_skip-Safe w a) h
  apply-Sound (cancels_occurrence key) a h = Safe-Sound a _ (cancel_occurrence-Safe w a key) h
  apply-Sound (finishes_setup revision before i later) a h =
      Safe-Sound a _ (finish_setup_of-Safe w a revision before i later a.settings_service.saved) h
  apply-Sound (reloads i later) a h = reload_of-Sound a i later a.settings_service.saved refl h
  apply-Sound (quiesces i) a h = Safe-Sound a _ (quiesce-Safe w a i) h
  apply-Sound (settings_changes candidate revision before i later) a h =
      change_settings-Sound w a candidate revision before i later h
  apply-Sound (volume_adjusts step before i later) a h =
      adjust_volume_of-Sound w a step before i later a.settings_service.saved h
  apply-Sound (dua_changes on revision) a h = Safe-Sound a _ (change_dua-Safe a on revision) h
  apply-Sound (time_format_changes hours revision) a h =
      Safe-Sound a _ (change_time_format-Safe a hours revision) h
  apply-Sound (speaker_name_changes name revision) a h =
      Safe-Sound a _ (change_speaker_name-Safe a name revision) h
  apply-Sound (display_changes percent revision i) a h =
      Safe-Sound a _ (change_display-Safe a percent revision i) h
  apply-Sound (lights_changes value revision i) a h =
      Safe-Sound a _ (change_lights-Safe a value revision i) h
  apply-Sound (visual_asks i) a h = Safe-Sound a _ (next_visual_prayer-Safe a i) h

  run-Sound : (ops : List Op) (a : Adapter M P O) → Sound a → Sound (run w ops a).0
  unfolding run
  run-Sound [] a h = h
  run-Sound (op ∷ ops) a h = run-Sound ops (apply w op a).0 (apply-Sound op a h)

  -- After setup, from any state, and any calls, in any order and at any times, the settings service
  -- is healthy and has settings, or the scheduler's storage is blocked.
  pub run-setup :
      (ops : List Op) (a : Adapter M P O) (d : Defaults) (first i later : Instant)
      → Sound (run w ops (setup w a d first i later).0).0
  run-setup ops a d first i later =
      run-Sound ops (setup w a d first i later).0 (setup-Sound a d first i later)
