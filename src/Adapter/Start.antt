-- ===== src/Adapter/Start.antt =====
-- `setup` of openathan.cpp.
use openathan.Base.{ℕ, ◌%◌, Bool, true, false, not, Option, none, some, is_some, if◌then◌else◌}
use openathan.Storage.{Preferences, unopened}
use openathan.Scheduler.{Event, Settings, initial_state}
use openathan.Scheduler.Machine as Machine
use openathan.Scheduler.Machine.{constructed, block_storage, allow_playback}
use openathan.DuaSequence as DuaSequence
use openathan.DuaPreference.Service as Dua
use openathan.Display.Service as Display
use openathan.TimeFormat.Service as TimeFormat
use openathan.SpeakerName.Service as SpeakerName
use openathan.Lights.Service as Lights
use openathan.Settings.{DeviceSettings, SavedSettings, Timezone}
use openathan.Settings.Service as Service
use openathan.Nvs.Setup as Setup
use openathan.Adapter.{Wiring, Adapter, Instant}
use openathan.Adapter.Output.{apply_display}
use openathan.Adapter.Control.{dua_enabled, volume_of, apply_volume, update}

-- What the build sets: `settings_`, the timezone and its name, and `default_volume_`.
pub record Defaults : Type 0 where
  pub prayer : Settings
  pub timezone : Timezone
  pub volume : ℕ

module _ {M P O : Type 0} (w : Wiring M P O) where
  -- The preferences, the sequence and the display.
  unfoldable pub begin_preferences : Adapter M P O → Instant → Adapter M P O
  unfolding Dua.begin Display.begin TimeFormat.begin SpeakerName.begin Lights.begin
      DuaSequence.set_enabled apply_display
  begin_preferences a i =
      let dua = Dua.begin w.dua_store a.medium in
      let a1 : Adapter M P O = record a {
        time_format_preferences = TimeFormat.begin w.time_format_store a.medium;
        speaker_name_preferences = SpeakerName.begin w.speaker_name_store a.medium;
        dua_preferences = dua;
        sequence = DuaSequence.set_enabled w.backend a.sequence (dua_enabled dua);
        display_preferences =
            if is_some w.display_output
            then Display.begin w.display_store a.medium
            else a.display_preferences;
      } in
      let a2 = apply_display w a1 i in
      record a2 {
        light_preferences =
            if is_some w.light_output
            then Lights.begin w.light_store a.medium
            else a.light_preferences;
        scheduler = constructed;
        settings_service = unopened;
      }

  -- The settings for an empty medium; a gate takes the volume of the build in any case.
  unfoldable pub first_settings : Adapter M P O → Defaults → DeviceSettings
  first_settings a d =
      let now : ℕ = elim (volume_of w a.sequence) [ none ↦ d.volume | some percent ↦ percent ] in
      record {
        prayer = d.prayer;
        timezone = d.timezone;
        volume = (if is_some a.setup_gate then d.volume else now) % 256;
      }

  -- The gate, over what the two stores hold, and its answer.
  unfoldable pub begin_gate : Adapter M P O → Bool × Adapter M P O
  unfolding Setup.begin
  begin_gate a = elim a.setup_gate [
    | none ↦ (true, a)
    | some gate ↦
        let r =
          Setup.begin w.nvs gate (w.settings_store.load Service.fresh a.medium).0
            (w.state_store.load initial_state a.medium).0 a.medium in
        (r.0, record a { setup_gate = some (r.1); medium = r.2 })
  ]

  -- The settings service, unless the gate failed, and its answer.
  unfoldable pub begin_settings : Adapter M P O → Bool → DeviceSettings → Bool × Adapter M P O
  unfolding Service.begin
  begin_settings a gate_ok defaults =
      let r = Service.begin w.settings_store defaults a.medium in
      if not gate_ok then (false, a) else (r.0, record a { settings_service = r.1; medium = r.2 })

  -- `settings_ok ? settings_service_->saved()->value.prayer : settings_`.
  prayer_of : Bool → Preferences SavedSettings → Settings → Settings
  prayer_of settings_ok p otherwise = elim p.saved [
    | none ↦ otherwise
    | some saved ↦ if settings_ok then saved.value.prayer else otherwise
  ]

  -- The scheduler over the settings, blocked where there are none, and not yet allowed to play.
  unfoldable pub begin_scheduler : Adapter M P O → Bool → Defaults → Adapter M P O
  unfolding Machine.begin prayer_of block_storage allow_playback
  begin_scheduler a settings_ok d =
      let begun =
        (Machine.begin w.state_store a.scheduler a.medium
          (prayer_of settings_ok a.settings_service d.prayer)).1 in
      record a {
        scheduler = allow_playback (if settings_ok then begun else block_storage begun) false;
      }

  unfoldable pub setup :
      Adapter M P O → Defaults → Instant → Instant → Instant → Adapter M P O × Option Event
  unfolding begin_preferences first_settings begin_gate begin_settings begin_scheduler apply_volume
      update
  setup a d first i later =
      let a1 = begin_preferences a first in
      let gate = begin_gate a1 in
      let started = begin_settings gate.1 gate.0 (first_settings a1 d) in
      update w (apply_volume w (begin_scheduler started.1 started.0 d)) i later
