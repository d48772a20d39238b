-- ===== src/Adapter.antt =====
-- firmware/esphome/components/openathan/openathan.h and openathan.cpp: the component that owns the
-- scheduler, the settings and preference services, the sequence of playback and the lights, and
-- passes them time. It is modelled from `setup` on, where `scheduler_`, `settings_service_` and
-- `playback_` are set. The stores' medium is of type `M`, the backend's state of type `P`, and the
-- state of lights and display of type `O`; logging is left out.
pub mod Output
pub mod Control
pub mod Change
pub mod Start
pub mod Steps
pub mod Core
pub mod Maintenance
pub mod Refused
pub mod Quiesced
pub mod Sound
pub mod Guarded
pub mod Reached
pub mod Runs
pub mod Saved
use openathan.Base.{
  ℕ, ◌/◌, ◌%◌, ℤ, Bool, true, false, not, ◌&&◌, Option, none, some, is_some, if◌then◌else◌,
}
use openathan.Calendar.{CivilDate, valid_date}
use openathan.Playback.{Playback}
use openathan.Storage.{Store, Preferences}
use openathan.Scheduler.{ClockSample, no_sample, DayCalculator, DurableState, Scheduler}
use openathan.DuaSequence.{Sequence}
use openathan.Settings.{Timezone, SavedSettings}
use openathan.DuaPreference.{SavedDua}
use openathan.Display.{SavedDisplay}
use openathan.TimeFormat.{SavedTimeFormat}
use openathan.SpeakerName.{SavedSpeakerName}
use openathan.Lights.{SavedLights}
use openathan.Lights.Mode.{LightMode}
use openathan.Lights.Frame.{LightFrame}
use openathan.Lights.Schedule.{LightSchedule}
use openathan.Nvs.{Nvs}
use openathan.Nvs.Setup.{SetupStore, setup_active}

-- What is wired to the component and is not its own: the stores, the backend, the calculator, the
-- outputs if there are any, and ESPHome's time.
pub record Wiring (M P O : Type 0) : Type 0 where
  pub state_store : Store M DurableState
  pub settings_store : Store M SavedSettings
  pub dua_store : Store M SavedDua
  pub display_store : Store M SavedDisplay
  pub light_store : Store M SavedLights
  pub time_format_store : Store M SavedTimeFormat
  pub speaker_name_store : Store M SavedSpeakerName
  pub nvs : Nvs M
  pub backend : Playback P
  pub calculator_source : DayCalculator
  pub light_output : Option (LightFrame → O → Bool × O)
  pub display_output : Option (ℕ → O → Bool × O)
  -- `ESPTime::from_epoch_utc(..).is_valid()`, and `time::epoch_to_local_tm` with the date that it
  -- gives.
  pub epoch_valid : ℤ → Bool
  pub epoch_to_local : ℤ → Timezone → Option CivilDate

-- The members, with the medium and the outputs.
pub record Adapter (M P O : Type 0) : Type 0 where
  pub medium : M
  pub outputs : O
  pub scheduler : Scheduler
  pub settings_service : Preferences SavedSettings
  pub sequence : Sequence P
  pub dua_preferences : Preferences SavedDua
  pub display_preferences : Preferences SavedDisplay
  pub light_preferences : Preferences SavedLights
  pub time_format_preferences : Preferences SavedTimeFormat
  pub speaker_name_preferences : Preferences SavedSpeakerName
  pub setup_gate : Option SetupStore
  pub display_output_ok : Bool
  pub display_next_check : ℕ
  pub light_schedule : LightSchedule
  pub light_mode : LightMode
  pub light_applied : Option LightFrame
  pub light_day : ℤ
  pub light_last_utc : ℤ
  pub light_next_frame : ℕ
  pub light_retry_at : ℕ
  pub light_schedule_ok : Bool
  pub light_output_ok : Bool
  pub volume_applied : Bool
  pub volume_attempts : ℕ
  pub next_volume_check : ℕ
  pub maintenance : Bool

-- One look at the clocks: what `gettimeofday` gives, in seconds and microseconds, and the
-- microseconds of `esp_timer_get_time`.
pub record Instant : Type 0 where
  pub wall : Option (ℤ × ℕ)
  pub micros : ℕ

abbrev pub millis : Instant → ℕ
millis i = i.micros / 1000

-- `!setup_gate_ || setup_gate_->active()`.
abbrev pub gate_active : Option SetupStore → Bool
gate_active none = true
gate_active (some gate) = setup_active gate

module _ {M P O : Type 0} where
  unfoldable pub activated : Adapter M P O → Bool
  activated a = not a.maintenance && gate_active a.setup_gate

  module _ (w : Wiring M P O) where
    -- `local_date` with a timezone: its answer and the date that it leaves.
    unfoldable pub local_date : ℤ → Timezone → Bool × CivilDate
    unfolding valid_date
    local_date utc zone = elim (w.epoch_to_local utc zone) [
      | none ↦ (false, no_sample.local_date)
      | some date ↦ (valid_date date, date)
    ]

    -- `local_date` with the timezone that is saved.
    abbrev saved_date : Adapter M P O → ℤ → Bool × CivilDate
    saved_date a utc = elim a.settings_service.saved [
      | none ↦ (false, no_sample.local_date)
      | some saved ↦ local_date utc saved.value.timezone
    ]

    unfoldable pub read : Adapter M P O → Instant → ClockSample
    unfolding local_date
    read a i = elim i.wall [
      | none ↦ no_sample
      | some (seconds, micros) ↦ record {
        valid = w.epoch_valid seconds && (saved_date a seconds).0;
        utc = seconds;
        monotonic_ms = millis i;
        local_date =
            if w.epoch_valid seconds then (saved_date a seconds).1 else no_sample.local_date;
        subsecond_ms = micros / 1000 % 65_536;
      }
    ]
