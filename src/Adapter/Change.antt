-- ===== src/Adapter/Change.antt =====
-- The parts of openathan.h and openathan.cpp that change what is saved, and `setup`.
use openathan.Base.{
  ℕ, ℤ, pos, ◌+ℤ◌, Bool, true, false, not, ◌&&◌, ◌||◌, Option, none, some, List, is_some, ltb_ℤ,
  pos_part, negsuc, ◌==◌, if◌then◌else◌,
}
use openathan.Scheduler.{Event, never_consumed}
use openathan.Scheduler.Machine.{block_storage, configure, validate_schedule}
use openathan.DuaSequence as DuaSequence
use openathan.DuaSequence.{cancel_followup}
use openathan.DuaPreference.Service as Dua
use openathan.Display.Service as Display
use openathan.TimeFormat.Service as TimeFormat
use openathan.SpeakerName.Service as SpeakerName
use openathan.Lights.{LightSettings}
use openathan.Lights.Service as Lights
use openathan.Settings.{DeviceSettings, SavedSettings, settings_eq, timezone_eq}
use openathan.Settings.Service as Service
use openathan.Settings.Service.{SettingsResult}
use openathan.Adapter.{Wiring, Adapter, Instant, read, local_date}
use openathan.Adapter.Output.{update_lights, apply_display}
use openathan.Adapter.Control.{dua_enabled, apply_volume, update}

-- Whether prayer settings or timezone differ from what was saved.
unfoldable pub schedule_changed : Option SavedSettings → DeviceSettings → Bool
unfolding settings_eq timezone_eq
schedule_changed none candidate = true
schedule_changed (some old) candidate = not (
    settings_eq old.value.prayer candidate.prayer
    && timezone_eq old.value.timezone candidate.timezone)

abbrev pub volume_changed : Option SavedSettings → DeviceSettings → Bool
volume_changed none candidate = true
volume_changed (some old) candidate = not (old.value.volume == candidate.volume)

-- `bounded` and `wanted` of `adjust_volume`, and the new volume.
unfoldable pub stepped : ℕ → ℤ → ℕ
stepped volume step =
    let bounded =
      if ltb_ℤ step (negsuc 99)
      then negsuc 99
      else if ltb_ℤ (pos 100) step
      then pos 100
      else step in
    let wanted = pos volume +ℤ bounded in
    if ltb_ℤ wanted (pos 0) then 0 else if ltb_ℤ (pos 100) wanted then 100 else pos_part wanted

-- Whether `change_display` puts the brightness on the display.
abbrev pub shown : Display.DisplayResult → Bool
shown Display.DisplayResult.saved = true
shown Display.DisplayResult.unchanged = true
shown _ = false

module _ {M P O : Type 0} (w : Wiring M P O) where
  -- The preflight that `change_settings` gives to the settings service.
  unfoldable pub preflight : Adapter M P O → Instant → DeviceSettings → Bool
  unfolding schedule_changed read local_date validate_schedule
  preflight a i value =
      let now = read w a i in
      let date = local_date w now.utc value.timezone in
      if not (schedule_changed a.settings_service.saved value)
      then true
      else if not now.valid
      then true
      else date.0 && validate_schedule w.calculator_source value.prayer date.1

  -- `change_settings` after the service has saved the candidate: the scheduler is configured, the
  -- volume asked for and the timetable ticked, each if it changed.
  abbrev pub configured : Adapter M P O → DeviceSettings → Adapter M P O
  configured a candidate = record a {
    scheduler = (configure a.scheduler candidate.prayer).1;
    light_day = never_consumed;
  }

  abbrev pub volume_reset : Adapter M P O → Adapter M P O
  volume_reset a =
      apply_volume w
        (record a { volume_applied = false; volume_attempts = 0; next_volume_check = 0 })

  unfoldable pub apply_saved :
      Adapter M P O
      → Option SavedSettings
      → DeviceSettings
      → Instant
      → Instant
      → Adapter M P O × Option Event
  unfolding configure apply_volume update schedule_changed
  apply_saved a old candidate i later =
      let a1 = if schedule_changed old candidate then configured a candidate else a in
      let a2 = if volume_changed old candidate then volume_reset a1 else a1 in
      if schedule_changed old candidate then update w a2 i later else (a2, none)

  unfoldable pub after_update :
      Adapter M P O
      → Option SavedSettings
      → DeviceSettings
      → Instant
      → Instant
      → SettingsResult
      → Adapter M P O × Option Event
  unfolding apply_saved block_storage cancel_followup
  after_update a old candidate i later SettingsResult.saved = apply_saved a old candidate i later
  after_update a old candidate i later SettingsResult.storage = (
    record a {
      scheduler = block_storage a.scheduler;
      sequence = cancel_followup w.backend a.sequence;
    },
    none,
  )
  after_update a old candidate i later result = (a, none)

  unfoldable pub change_settings :
      Adapter M P O
      → DeviceSettings
      → ℕ
      → Instant
      → Instant
      → Instant
      → SettingsResult × Adapter M P O × Option Event
  unfolding Service.update preflight after_update
  change_settings a candidate revision before i later =
      let r =
        Service.update w.settings_store a.settings_service a.medium candidate revision
          (preflight a before) in
      let done =
        after_update (record a { settings_service = r.1; medium = r.2 }) a.settings_service.saved
          candidate i later r.0 in
      if a.maintenance then (SettingsResult.storage, a, none) else (r.0, done.0, done.1)

  unfoldable pub adjust_volume_of :
      Adapter M P O
      → ℤ
      → Instant
      → Instant
      → Instant
      → Option SavedSettings
      → SettingsResult × Adapter M P O × Option Event
  unfolding change_settings stepped
  adjust_volume_of a step before i later none = (SettingsResult.storage, a, none)
  adjust_volume_of a step before i later (some saved) =
      if not a.settings_service.writable
      then (SettingsResult.storage, a, none)
      else change_settings a (record (saved.value) { volume = stepped saved.value.volume step })
          saved.revision before i later

  unfoldable pub adjust_volume :
      Adapter M P O
      → ℤ
      → Instant
      → Instant
      → Instant
      → SettingsResult × Adapter M P O × Option Event
  unfolding adjust_volume_of
  adjust_volume a step before i later =
      adjust_volume_of a step before i later a.settings_service.saved

  unfoldable pub change_dua : Adapter M P O → Bool → ℕ → Dua.DuaSaveResult × Adapter M P O
  unfolding Dua.update DuaSequence.set_enabled
  change_dua a enabled revision =
      let r = Dua.update w.dua_store a.dua_preferences a.medium enabled revision in
      if a.maintenance then (Dua.DuaSaveResult.storage, a) else (
        r.0,
        record a {
          dua_preferences = r.1;
          medium = r.2;
          sequence = DuaSequence.set_enabled w.backend a.sequence (dua_enabled r.1);
        },
      )

  unfoldable pub change_time_format :
      Adapter M P O → ℕ → ℕ → TimeFormat.TimeFormatResult × Adapter M P O
  unfolding TimeFormat.update
  change_time_format a hours revision =
      let r =
        TimeFormat.update w.time_format_store a.time_format_preferences a.medium hours revision in
      if a.maintenance
      then (TimeFormat.TimeFormatResult.storage, a)
      else (r.0, record a { time_format_preferences = r.1; medium = r.2 })

  unfoldable pub change_speaker_name :
      Adapter M P O → List ℕ → ℕ → SpeakerName.SpeakerNameResult × Adapter M P O
  unfolding SpeakerName.update
  change_speaker_name a name revision =
      let r =
        SpeakerName.update w.speaker_name_store a.speaker_name_preferences a.medium name revision in
      if a.maintenance
      then (SpeakerName.SpeakerNameResult.storage, a)
      else (r.0, record a { speaker_name_preferences = r.1; medium = r.2 })

  unfoldable pub change_display :
      Adapter M P O → ℕ → ℕ → Instant → Display.DisplayResult × Adapter M P O
  unfolding Display.update apply_display
  change_display a percent revision i =
      let r = Display.update w.display_store a.display_preferences a.medium percent revision in
      let a1 : Adapter M P O = record a { display_preferences = r.1; medium = r.2 } in
      if not (is_some w.display_output) || a.maintenance
      then (Display.DisplayResult.storage, a)
      else (r.0, if shown r.0 then apply_display w a1 i else a1)

  unfoldable pub change_lights :
      Adapter M P O → LightSettings → ℕ → Instant → Lights.LightSaveResult × Adapter M P O
  unfolding Lights.update update_lights
  change_lights a value revision i =
      let r = Lights.update w.light_store a.light_preferences a.medium value revision in
      if not (is_some w.light_output) || a.maintenance
      then (Lights.LightSaveResult.storage, a)
      else (
        r.0,
        update_lights w (record a { light_preferences = r.1; medium = r.2; light_next_frame = 0 })
            i,
      )
