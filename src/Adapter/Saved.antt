-- ===== src/Adapter/Saved.antt =====
-- What a change of the settings and of the volume saves.
use mathlib.Core.Option.{some-injective}
use openathan.Base.{
  ℕ, ◌≤◌, ℤ, pos, negsuc, ◌+ℤ◌, ◌≡◌, ◌∙◌, refl, ap, sym, subst, Bool, true, false, not, ◌&&◌,
  Option, none, some, ltb_ℤ, Bool-cases, inl, inr, arith, if_false, if◌then◌else◌,
}
use openathan.Storage.{Store, Preferences}
use openathan.Scheduler.{Event}
use openathan.Scheduler.Machine.{validate_schedule}
use openathan.Settings.{DeviceSettings, SavedSettings, valid_device_settings}
use openathan.Settings.Service as Service
use openathan.Settings.Service.{SettingsResult, next_saved, settings_update_saved}
use openathan.Adapter.{Wiring, Adapter, Instant, read, local_date}
use openathan.Adapter.Change.{
  schedule_changed, preflight, after_update, change_settings, adjust_volume, adjust_volume_of,
  stepped,
}
use openathan.Adapter.Reached.{apply_saved-Safe}

-- The percentage nearest to a number.
abbrev pub nearest_percent : ℤ → ℤ
nearest_percent x = if ltb_ℤ x (pos 0) then pos 0 else if ltb_ℤ (pos 100) x then pos 100 else x

-- From a volume of at most 100 the bound that adjust_volume puts on the step first makes no
-- difference: for every step the new volume is the percentage nearest to the sum.
pub stepped_nearest :
    (volume : ℕ) (step : ℤ)
    → volume ≤ 100
    → pos (stepped volume step) ≡ nearest_percent (pos volume +ℤ step)
unfolding stepped ◌+ℤ◌
stepped_nearest volume (pos n) h = ground arith
stepped_nearest volume (negsuc n) h = ground arith

passed_preflight :
    (changed valid dated built : Bool)
    → (if not changed then true else if not valid then true else dated && built) ≡ true
    → changed ≡ true
    → valid ≡ true
    → (dated ≡ true) × (built ≡ true)
passed_preflight changed valid dated built h c v = ground arith

updated_value :
    {S : Type 0} (st : Store S SavedSettings) (p : Preferences SavedSettings) (s : S)
    (candidate : DeviceSettings) (revision : ℕ) (f : DeviceSettings → Bool) (old : SavedSettings)
    → p.saved ≡ some old
    → (Service.update st p s candidate revision f).0 ≡ SettingsResult.saved
    → (Service.update st p s candidate revision f).1.saved
      ≡ some (next_saved candidate old.revision)
unfolding Service.update
updated_value st p s candidate revision f old here done = ground arith

-- A change that was accepted.
pub record Accepted {M P O : Type 0} (w : Wiring M P O) (a : Adapter M P O) (old : SavedSettings)
    (candidate : DeviceSettings) (revision : ℕ) (before : Instant) (b : Adapter M P O)
    : Type 0 where
  pub running : a.maintenance ≡ false
  pub current : revision ≡ old.revision
  pub valid : valid_device_settings candidate ≡ true
  pub fits : preflight w a before candidate ≡ true
  pub in_force : b.settings_service.saved ≡ some (next_saved candidate old.revision)

module _ {M P O : Type 0} (w : Wiring M P O) where
  after_update_settings :
      (a : Adapter M P O) (old : Option SavedSettings) (candidate : DeviceSettings)
      (i later : Instant) (result : SettingsResult)
      → (after_update w a old candidate i later result).0.settings_service ≡ a.settings_service
  unfolding after_update
  after_update_settings a old candidate i later SettingsResult.saved =
      (apply_saved-Safe w a old candidate i later).settings_kept
  after_update_settings a old candidate i later SettingsResult.storage = refl
  after_update_settings a old candidate i later SettingsResult.unchanged = refl
  after_update_settings a old candidate i later SettingsResult.conflict = refl
  after_update_settings a old candidate i later SettingsResult.invalid = refl
  after_update_settings a old candidate i later SettingsResult.invalid_schedule = refl

  change_settings-Accepted :
      (a : Adapter M P O) (candidate : DeviceSettings) (revision : ℕ) (before i later : Instant)
      (old : SavedSettings)
      → a.settings_service.saved ≡ some old
      → (change_settings w a candidate revision before i later).0 ≡ SettingsResult.saved
      → Accepted w a old candidate revision before
          (change_settings w a candidate revision before i later).1
  unfolding change_settings after_update
  change_settings-Accepted a candidate revision before i later old here done =
      elim (Bool-cases a.maintenance) [
        | inl m ↦ absurd (cc (rw m at done))
        | inr m ↦
            let f = preflight w a before in
            let r =
              Service.update w.settings_store a.settings_service a.medium candidate revision f in
            let ok : r.0 ≡ SettingsResult.saved = rw m at done in
            let facts =
              settings_update_saved w.settings_store a.settings_service a.medium candidate revision
                f old here ok in
            let value =
              updated_value w.settings_store a.settings_service a.medium candidate revision f old
                here ok in
            let a1 : Adapter M P O = record a { settings_service = r.1; medium = r.2 } in
            record {
              running = m;
              current = facts.0;
              valid = facts.1;
              fits = facts.2;
              in_force =
                  ap
                    (λ (x : SettingsResult × Adapter M P O × Option Event).
                      x.1.settings_service.saved)
                    (if_false a.maintenance _ _ m)
                  ∙ ap (λ (p : Preferences SavedSettings). p.saved)
                      (after_update_settings a1 a.settings_service.saved candidate i later r.0)
                  ∙ value;
            }
      ]

  -- A change of prayer settings or timezone that was saved while the clock was valid is one for
  -- which the scheduler can build the timetable of the day that it is in the new timezone.
  pub change_settings_scheduled :
      (a : Adapter M P O) (candidate : DeviceSettings) (revision : ℕ) (before i later : Instant)
      (old : SavedSettings)
      → a.settings_service.saved ≡ some old
      → (change_settings w a candidate revision before i later).0 ≡ SettingsResult.saved
      → schedule_changed (some old) candidate ≡ true
      → (read w a before).valid ≡ true
      → ((local_date w (read w a before).utc candidate.timezone).0 ≡ true)
        × (validate_schedule w.calculator_source candidate.prayer
              (local_date w (read w a before).utc candidate.timezone).1
            ≡ true)
  unfolding preflight
  change_settings_scheduled a candidate revision before i later old here done changed valid =
      let fits =
        (change_settings-Accepted a candidate revision before i later old here done).fits in
      passed_preflight (schedule_changed a.settings_service.saved candidate) (read w a before).valid
        (local_date w (read w a before).utc candidate.timezone).0
        (validate_schedule w.calculator_source candidate.prayer
          (local_date w (read w a before).utc candidate.timezone).1)
        fits (subst (λ o. schedule_changed o candidate ≡ true) (sym here) changed) valid

  -- What is in force after a step of the volume.
  pub record Stepped (old : SavedSettings) (step : ℤ) (b : Adapter M P O) : Type 0 where
    pub new : DeviceSettings
    pub in_force : b.settings_service.saved ≡ some (next_saved new old.revision)
    pub same_prayer : new.prayer ≡ old.value.prayer
    pub same_timezone : new.timezone ≡ old.value.timezone
    pub near : pos new.volume ≡ nearest_percent (pos old.value.volume +ℤ step)

  adjust_volume_of-Stepped :
      (a : Adapter M P O) (step : ℤ) (before i later : Instant) (o : Option SavedSettings)
      (old : SavedSettings)
      → a.settings_service.saved ≡ some old
      → o ≡ some old
      → old.value.volume ≤ 100
      → (adjust_volume_of w a step before i later o).0 ≡ SettingsResult.saved
      → Stepped old step (adjust_volume_of w a step before i later o).1
  unfolding adjust_volume_of
  adjust_volume_of-Stepped a step before i later none old here e small done = absurd (cc)
  adjust_volume_of-Stepped a step before i later (some s) old here e small done =
      let same = some-injective _ _ e in
      let candidate : DeviceSettings = record (s.value) { volume = stepped s.value.volume step } in
      elim (Bool-cases (not a.settings_service.writable)) [
        | inl shut ↦ absurd (cc (rw shut at done))
        | inr open_there ↦
            let accepted = change_settings-Accepted a candidate s.revision before i later old here (
              sym (
                ap (λ (x : SettingsResult × Adapter M P O × Option Event). x.0)
                  (if_false (not a.settings_service.writable) _ _ open_there))
              ∙ done) in
            record {
              new = candidate;
              in_force =
                  ap
                    (λ (x : SettingsResult × Adapter M P O × Option Event).
                      x.1.settings_service.saved)
                    (if_false (not a.settings_service.writable) _ _ open_there)
                  ∙ accepted.in_force;
              same_prayer = ap (λ (x : SavedSettings). x.value.prayer) same;
              same_timezone = ap (λ (x : SavedSettings). x.value.timezone) same;
              near =
                  ap (λ (x : SavedSettings). pos (stepped x.value.volume step)) same
                  ∙ stepped_nearest old.value.volume step small;
            }
      ]

  -- A step of the volume that is saved: from a saved volume of at most 100, what is in force then is
  -- the next revision, with the volume nearest to the sum that is a percentage, and with the prayer
  -- settings and the timezone as they were.
  pub adjust_volume-Stepped :
      (a : Adapter M P O) (step : ℤ) (before i later : Instant) (old : SavedSettings)
      → a.settings_service.saved ≡ some old
      → old.value.volume ≤ 100
      → (adjust_volume w a step before i later).0 ≡ SettingsResult.saved
      → Stepped old step (adjust_volume w a step before i later).1
  unfolding adjust_volume
  adjust_volume-Stepped a step before i later old here small done =
      adjust_volume_of-Stepped a step before i later a.settings_service.saved old here here small
        done
