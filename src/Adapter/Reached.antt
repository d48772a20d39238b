-- ===== src/Adapter/Reached.antt =====
-- Every state of the component that `setup` and calls reach is one where the scheduler is blocked
-- unless there are settings.
use openathan.Base.{
  ℕ, ℤ, ◌≡◌, refl, Bool, true, false, not, ◌&&◌, ◌||◌, Option, none, some, if_both, arith,
  if◌then◌else◌, ◌==◌,
}
use openathan.Storage.{Store, Preferences}
use openathan.Scheduler.{Event, Scheduler}
use openathan.Scheduler.Machine.{configure, validate_schedule, block_storage}
use openathan.Scheduler.Valid.{valid_settings}
use openathan.Settings.{SavedSettings, DeviceSettings}
use openathan.Settings.Service as Service
use openathan.Settings.Service.{SettingsResult}
use openathan.Nvs.Setup as Setup
use openathan.Nvs.Setup.{SetupStore}
use openathan.Adapter.{Wiring, Adapter, Instant, read}
use openathan.Adapter.Control.{finish_setup_of, activate_gate, is_storage}
use openathan.Adapter.Change.{
  configured, volume_reset, volume_changed, schedule_changed, apply_saved, after_update, preflight,
  change_settings, adjust_volume_of, stepped,
}
use openathan.Adapter.Sound.{Sound, has_settings, is_blocked, healthy}
use openathan.Adapter.Guarded.{
  Safe, Safe-refl, Safe-trans, Safe-Sound, record_Safe, apply_volume-Safe, update-Safe,
}

abbrev is_storage_result : SettingsResult → Bool
is_storage_result SettingsResult.storage = true
is_storage_result _ = false

-- An update of the settings that does not answer storage leaves the service healthy.
update_healthy :
    {S : Type 0} (st : Store S SavedSettings) (p : Preferences SavedSettings) (s : S)
    (candidate : DeviceSettings) (revision : ℕ) (f : DeviceSettings → Bool)
    → (is_storage_result (Service.update st p s candidate revision f).0
        || healthy (Service.update st p s candidate revision f).1)
      ≡ true
unfolding Service.update
update_healthy st p s candidate revision f = ground arith

module _ {M P O : Type 0} (w : Wiring M P O) where
  configured-Safe :
      (a : Adapter M P O) (candidate : DeviceSettings) → Safe a (configured w a candidate)
  unfolding configure
  configured-Safe a candidate = record_Safe a _ refl (
      if_both (λ (r : Bool × Scheduler). r.1.storage_ok ≡ a.scheduler.storage_ok)
        (not (valid_settings candidate.prayer)) refl refl)

  volume_reset-Safe : (a : Adapter M P O) → Safe a (volume_reset w a)
  volume_reset-Safe a =
      let a1 : Adapter M P O = record a {
        volume_applied = false;
        volume_attempts = 0;
        next_volume_check = 0;
      } in
      Safe-trans a a1 _ (record_Safe a a1 refl refl) (apply_volume-Safe w a1)

  pub apply_saved-Safe :
      (a : Adapter M P O) (old : Option SavedSettings) (candidate : DeviceSettings)
      (i later : Instant)
      → Safe a (apply_saved w a old candidate i later).0
  unfolding apply_saved
  apply_saved-Safe a old candidate i later =
      let a1 = if schedule_changed old candidate then configured w a candidate else a in
      let a2 = if volume_changed old candidate then volume_reset w a1 else a1 in
      let h1 =
        if_both (Safe a) (schedule_changed old candidate) (configured-Safe a candidate)
          (Safe-refl a) in
      let h2 =
        Safe-trans a a1 a2 h1 (
          if_both (Safe a1) (volume_changed old candidate) (volume_reset-Safe a1) (Safe-refl a1)) in
      if_both (λ (r : Adapter M P O × Option Event). Safe a r.0) (schedule_changed old candidate)
        (Safe-trans a a2 _ h2 (update-Safe w a2 i later)) h2

  after_update-Sound :
      (a : Adapter M P O) (old : Option SavedSettings) (candidate : DeviceSettings)
      (i later : Instant) (result : SettingsResult)
      → (is_storage_result result || healthy a.settings_service) ≡ true
      → Sound (after_update w a old candidate i later result).0
  unfolding after_update block_storage
  after_update-Sound a old candidate i later SettingsResult.saved h =
      Safe-Sound a _ (apply_saved-Safe a old candidate i later) (has_settings h)
  after_update-Sound a old candidate i later SettingsResult.storage h = is_blocked refl
  after_update-Sound a old candidate i later SettingsResult.unchanged h = has_settings h
  after_update-Sound a old candidate i later SettingsResult.conflict h = has_settings h
  after_update-Sound a old candidate i later SettingsResult.invalid h = has_settings h
  after_update-Sound a old candidate i later SettingsResult.invalid_schedule h = has_settings h

  pub change_settings-Sound :
      (a : Adapter M P O) (candidate : DeviceSettings) (revision : ℕ) (before i later : Instant)
      → Sound a
      → Sound (change_settings w a candidate revision before i later).1
  unfolding change_settings
  change_settings-Sound a candidate revision before i later h =
      let r =
        Service.update w.settings_store a.settings_service a.medium candidate revision
          (preflight w a before) in
      if_both (λ (x : SettingsResult × Adapter M P O × Option Event). Sound x.1) a.maintenance h
        (after_update-Sound (record a { settings_service = r.1; medium = r.2 })
          a.settings_service.saved candidate i later r.0
          (update_healthy w.settings_store a.settings_service a.medium candidate revision
            (preflight w a before)))

  pub adjust_volume_of-Sound :
      (a : Adapter M P O) (step : ℤ) (before i later : Instant) (o : Option SavedSettings)
      → Sound a
      → Sound (adjust_volume_of w a step before i later o).1
  unfolding adjust_volume_of
  adjust_volume_of-Sound a step before i later none h = h
  adjust_volume_of-Sound a step before i later (some saved) h =
      if_both (λ (x : SettingsResult × Adapter M P O × Option Event). Sound x.1)
        (not a.settings_service.writable) h
        (change_settings-Sound a (record (saved.value) { volume = stepped saved.value.volume step })
          saved.revision before i later h)

  activate_gate-Safe :
      (a : Adapter M P O) (i later : Instant) (o : Option SetupStore)
      → Safe a (activate_gate w a i later o).1
  unfolding activate_gate block_storage
  activate_gate-Safe a i later none = update-Safe w a i later
  activate_gate-Safe a i later (some gate) =
      let r = Setup.activate w.nvs gate a.medium in
      let a1 : Adapter M P O = record a { setup_gate = some (r.1); medium = r.2 } in
      if_both (λ (x : Bool × Adapter M P O × Option Event). Safe a x.1) (not r.0)
        (record { settings_kept = refl; blocked_kept = λ h. refl })
        (Safe-trans a a1 _ (record_Safe a a1 refl refl) (update-Safe w a1 i later))

  pub finish_setup_of-Safe :
      (a : Adapter M P O) (revision : ℕ) (before i later : Instant) (o : Option SavedSettings)
      → Safe a (finish_setup_of w a revision before i later o).1
  unfolding finish_setup_of
  finish_setup_of-Safe a revision before i later none = Safe-refl a
  finish_setup_of-Safe a revision before i later (some saved) =
      let now = read w a before in
      if_both (λ (x : Bool × Adapter M P O × Option Event). Safe a x.1)
        (a.maintenance
          || not a.settings_service.writable
          || not (saved.revision == revision)
          || is_storage a.scheduler.fault)
        (Safe-refl a)
        (if_both (λ (x : Bool × Adapter M P O × Option Event). Safe a x.1)
          (now.valid
            && not (validate_schedule w.calculator_source saved.value.prayer now.local_date))
          (Safe-refl a) (activate_gate-Safe a i later a.setup_gate))
