-- ===== src/Examples/Adapting.antt =====
-- The component with a medium of two cells, the desk's backend and no lights, on one morning.
use openathan.Base.{
  ℕ, ◌+◌, ◌*◌, ◌≡◌, refl, pos, ◌+ℤ◌, ◌-ℤ◌, ◌*ℤ◌, true, false, Option, none, some, List, [], ◌∷◌,
  arith, list_eq,
}
use openathan.Calendar.{date}
use openathan.Playback.{Track}
use openathan.Storage.{LoadResult, Store, unopened}
use openathan.Scheduler.{DurableState, never_consumed}
use openathan.Scheduler.Valid.{default_settings}
use openathan.Scheduler.Machine as Machine
use openathan.DuaSequence.{initial_sequence}
use openathan.Settings.{SavedSettings, DeviceSettings, device_eq, valid_device_settings}
use openathan.Settings.Service as Service
use openathan.Settings.Service.{SettingsResult}
use openathan.Lights.Mode.{LightMode}
use openathan.Lights.Schedule.{no_light_times}
use openathan.Nvs.{Nvs, not_found}
use openathan.Double.{is_nan}
use openathan.Adapter.{Wiring, Adapter, Instant}
use openathan.Adapter as Adapter
use openathan.Adapter.Control as Control
use openathan.Adapter.Change as Change
use openathan.Adapter.Start.{Defaults, setup}
use openathan.Adapter.Steps.{run, updates, loops, reloads, volume_adjusts}
use openathan.Adapter.Maintenance.{Quiet}
use openathan.Adapter.Quiesced.{run-quiesce}
use openathan.Adapter.Sound.{Sound, has_settings, Heard, update-Heard}
use openathan.Adapter.Runs.{run-setup}
use openathan.Adapter.Saved.{
  stepped_nearest, nearest_percent, change_settings_scheduled, adjust_volume-Stepped, Stepped,
}
use openathan.Examples.{cell, desk}
use openathan.Examples.Configuring.{at_volume}
use openathan.Examples.Scheduling.{clockwork, fajr_event}

pub record Cells : Type 0 where
  pub of_state : Option DurableState
  pub of_settings : Option SavedSettings

abbrev state_cell : Store Cells DurableState
state_cell = record {
  load = λ d m. cell.load d m.of_state;
  save = λ v m. (true, record m { of_state = some v });
}

abbrev settings_cell : Store Cells SavedSettings
settings_cell = record {
  load = λ d m. cell.load d m.of_settings;
  save = λ v m. (true, record m { of_settings = some v });
}

-- A store that is always empty.
abbrev nothing : {V : Type 0} → Store Cells V
nothing = record { load = λ d m. (LoadResult.empty, d); save = λ v m. (true, m) }

abbrev no_nvs : Nvs Cells
no_nvs = record {
  opens = λ key m. true;
  size_of = λ key m. not_found;
  get_blob = λ key m. none;
  set_blob = λ key r m. (true, m);
  commit = λ key m. (true, m);
}

abbrev wiring : Wiring Cells (List Track) Unit
wiring = record {
  state_store = state_cell;
  settings_store = settings_cell;
  dua_store = nothing;
  display_store = nothing;
  light_store = nothing;
  time_format_store = nothing;
  speaker_name_store = nothing;
  nvs = no_nvs;
  backend = desk;
  calculator_source = clockwork;
  light_output = none;
  display_output = none;
  epoch_valid = λ utc. true;
  epoch_to_local = λ utc zone. some (date 2024 2 29);
}

-- The members before `setup`.
abbrev unset : Adapter Cells (List Track) Unit
unset = record {
  medium = record { of_state = none; of_settings = none };
  outputs = tt;
  scheduler = Machine.constructed;
  settings_service = unopened;
  sequence = record initial_sequence { backend = some [] };
  dua_preferences = unopened;
  display_preferences = unopened;
  light_preferences = unopened;
  time_format_preferences = unopened;
  speaker_name_preferences = unopened;
  setup_gate = none;
  display_output_ok = false;
  display_next_check = 0;
  light_schedule = record {
    times = no_light_times;
    previous_isha = none;
    following_fajr = none;
    first_day = pos 0;
    enabled = default_settings.enabled;
  };
  light_mode = LightMode.off;
  light_applied = none;
  light_day = never_consumed;
  light_last_utc = pos 0;
  light_next_frame = 0;
  light_retry_at = 0;
  light_schedule_ok = false;
  light_output_ok = false;
  volume_applied = false;
  volume_attempts = 0;
  next_volume_check = 0;
  maintenance = false;
}

abbrev built : Defaults
built = record { prayer = default_settings; timezone = (at_volume 50).timezone; volume = 50 }

-- `s` seconds into 2024-02-29.
abbrev at_second : ℕ → Instant
at_second s = record { wall = some (pos (19_782 * 86_400 + s), 0); micros = s * 1_000_000 }

abbrev morning : Adapter Cells (List Track) Unit
morning = (setup wiring unset built (at_second 17_998) (at_second 17_999) (at_second 17_999)).0

run-setup_example :
    Sound
      (run wiring
        (loops (at_second 17_999) ∷ updates (at_second 18_000) (at_second 18_000) ∷ [])
        (setup wiring unset built (at_second 17_998) (at_second 17_999) (at_second 17_999)).0).0
run-setup_example =
    run-setup wiring (loops (at_second 17_999) ∷ updates (at_second 18_000) (at_second 18_000) ∷ [])
      unset built (at_second 17_998) (at_second 17_999) (at_second 17_999)

run-quiesce_example :
    Quiet wiring
      (Control.quiesce_for_maintenance wiring morning (at_second 18_000))
      (run wiring
        (updates (at_second 18_000) (at_second 18_000)
          ∷ reloads (at_second 18_001) (at_second 18_001)
          ∷ volume_adjusts (pos 5) (at_second 18_002) (at_second 18_002) (at_second 18_002)
          ∷ [])
        (Control.quiesce_for_maintenance wiring morning (at_second 18_000))).0
run-quiesce_example =
    (run-quiesce wiring
      (updates (at_second 18_000) (at_second 18_000)
        ∷ reloads (at_second 18_001) (at_second 18_001)
        ∷ volume_adjusts (pos 5) (at_second 18_002) (at_second 18_002) (at_second 18_002)
        ∷ [])
      morning (at_second 18_000)).0

stepped_nearest_example : pos (Change.stepped 70 (pos 500)) ≡ nearest_percent (pos 570)
unfolding ◌+ℤ◌
stepped_nearest_example = stepped_nearest 70 (pos 500) (omega arith)

-- What a run of the component computes with.
adapting : Unit {0}
unfolding setup Control.update Change.change_settings Change.adjust_volume Adapter.read Machine.tick
    Machine.tick_built Machine.is_continuous Machine.rebuild Service.begin Service.update
    valid_device_settings device_eq list_eq is_nan Change.preflight Change.schedule_changed
    Adapter.local_date ◌*ℤ◌ ◌+ℤ◌ ◌-ℤ◌
adapting = tt

fajr_heard :
    (Control.update wiring morning (at_second 18_000) (at_second 18_000)).1 ≡ some fajr_event
unfolding adapting
fajr_heard = refl

morning_saved :
    morning.settings_service
    ≡ record { saved = some (record { revision = 1; value = at_volume 50 }); writable = true }
unfolding adapting
morning_saved = refl

morning-Sound : Sound morning
unfolding adapting
morning-Sound = has_settings refl

update-Heard_example : Heard wiring morning (at_second 18_000) fajr_event
update-Heard_example =
    update-Heard wiring morning (at_second 18_000) (at_second 18_000) fajr_event morning-Sound
      fajr_heard

abbrev first_saved : SavedSettings
first_saved = record { revision = 1; value = at_volume 50 }

adjust_volume-Stepped_example :
    Stepped wiring first_saved
      (pos 500)
      (Change.adjust_volume wiring morning
        (pos 500)
        (at_second 18_000)
        (at_second 18_000)
        (at_second 18_000)).1
unfolding adapting
adjust_volume-Stepped_example =
    adjust_volume-Stepped wiring morning (pos 500) (at_second 18_000) (at_second 18_000)
      (at_second 18_000) first_saved refl (omega arith) refl

-- The same settings with Fajr turned off.
abbrev without_fajr : DeviceSettings
without_fajr = record (at_volume 50) {
  prayer = record default_settings {
    enabled = record (default_settings.enabled) { of_fajr = false };
  };
}

change_settings_scheduled_example :
    Machine.validate_schedule clockwork without_fajr.prayer (date 2024 2 29) ≡ true
unfolding adapting
change_settings_scheduled_example =
    (change_settings_scheduled wiring morning without_fajr 1 (at_second 18_000) (at_second 18_000)
      (at_second 18_000) first_saved refl refl refl refl).1
