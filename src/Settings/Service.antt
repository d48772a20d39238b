-- ===== src/Settings/Service.antt =====
-- `SettingsService::begin` and `update`. `saved_` and `healthy_` are the two members of
-- `Preferences`; the preflight is a parameter.
use openathan.Base.{
  ℕ, ◌+◌, ◌%◌, ◌<◌, ◌≡◌, subst, Bool, true, false, not, ◌&&◌, ◌||◌, none, some, List, [], All,
  is_some, ◌==◌, if◌then◌else◌, arith, pos,
}
use openathan.Bytes.{u32_mod}
use openathan.Storage.{LoadResult, Store, IsDurable, Preferences, unopened}
use openathan.Storage.Laws.{Service, run, begin-run, Outcome, kept, stored, closed, Update}
use openathan.Scheduler.Valid.{default_settings}
use openathan.Settings.{DeviceSettings, SavedSettings, no_rule, valid_device_settings, device_eq}

pub data SettingsResult : Type 0 where
  saved unchanged conflict invalid invalid_schedule storage : SettingsResult

pub record IsStorable (v : SavedSettings) : Type 0 where
  pub positive : 0 < v.revision
  pub bounded : v.revision < u32_mod
  pub valid : valid_device_settings v.value ≡ true

unfoldable pub next_saved : DeviceSettings → ℕ → SavedSettings
next_saved candidate revision = record { revision = (revision + 1) % u32_mod; value = candidate }

unfoldable pub outcome_of : Preferences SavedSettings → SettingsResult → Outcome
outcome_of p saved = stored
outcome_of p storage = if is_some p.saved && p.writable then closed else kept
outcome_of p _ = kept

-- `SavedSettings loaded;`
abbrev pub fresh : SavedSettings
fresh = record {
  revision = 0;
  value = record {
    prayer = default_settings;
    timezone = record {
      name = [];
      standard_offset = pos 0;
      daylight_offset = pos 0;
      start = no_rule;
      end = no_rule;
    };
    volume = 70;
  };
}

-- The last test of `begin`.
accept : SavedSettings → Bool × Preferences SavedSettings
accept v =
    if v.revision == 0 || not (valid_device_settings v.value)
    then (false, unopened)
    else (true, record { saved = some v; writable = true })

abbrev first_saved : DeviceSettings → SavedSettings
first_saved defaults = record { revision = 1; value = defaults }

module _ {S : Type 0} (st : Store S SavedSettings) where
  -- Its answer, the service and the medium, on which an empty one gets the defaults.
  unfoldable pub begin : DeviceSettings → S → Bool × Preferences SavedSettings × S
  unfolding accept
  begin defaults s = elim (st.load fresh s).0 [
    | LoadResult.error ↦ (false, unopened, s)
    | LoadResult.empty ↦
        if not (valid_device_settings defaults)
        then (false, unopened, s)
        else if not (st.save (first_saved defaults) s).0
        then (false, unopened, (st.save (first_saved defaults) s).1)
        else (
          (accept (first_saved defaults)).0,
          (accept (first_saved defaults)).1,
          (st.save (first_saved defaults) s).1,
        )
    | LoadResult.loaded ↦ ((accept (st.load fresh s).1).0, (accept (st.load fresh s).1).1, s)
  ]

  -- `update` behind its first test.
  update_from :
      SavedSettings
      → Preferences SavedSettings
      → S
      → DeviceSettings
      → ℕ
      → (DeviceSettings → Bool)
      → SettingsResult × Preferences SavedSettings × S
  unfolding next_saved
  update_from old p s candidate expected preflight =
      let new = next_saved candidate old.revision in
      if not (expected == old.revision)
      then (conflict, p, s)
      else if not (valid_device_settings candidate)
      then (invalid, p, s)
      else if device_eq candidate old.value
      then (unchanged, p, s)
      else if not (preflight candidate)
      then (invalid_schedule, p, s)
      else if old.revision == 0xFFFF_FFFF
      then (conflict, p, s)
      else if not (st.save new s).0
      then (storage, record p { writable = false }, (st.save new s).1)
      else (saved, record p { saved = some new }, (st.save new s).1)

  unfoldable pub update :
      Preferences SavedSettings
      → S
      → DeviceSettings
      → ℕ
      → (DeviceSettings → Bool)
      → SettingsResult × Preferences SavedSettings × S
  unfolding update_from
  update p s candidate expected preflight = elim p.saved [
    | none ↦ (storage, p, s)
    | some old ↦
        if not p.writable then (storage, p, s) else update_from old p s candidate expected preflight
  ]

  -- For a revision of 32 bits, a settings update changes nothing, or writes the next revision with
  -- the valid candidate to the medium and then keeps it in memory, or fails to write it and closes
  -- the service with its value unchanged.
  pub settings_update-Update :
      (p : Preferences SavedSettings) (s : S) (candidate : DeviceSettings) (expected : ℕ)
      (preflight : DeviceSettings → Bool)
      → expected < u32_mod
      → let r = update p s candidate expected preflight in
        Update st
          (λ v. v.revision)
          IsStorable
          p
          s
          (next_saved candidate expected)
          (outcome_of p r.0)
          r.1
          r.2
  unfolding update next_saved outcome_of
  settings_update-Update p s candidate expected preflight small = ground arith

  -- An update that answers `saved` passed every test.
  pub settings_update_saved :
      (p : Preferences SavedSettings) (s : S) (candidate : DeviceSettings) (expected : ℕ)
      (preflight : DeviceSettings → Bool) (old : SavedSettings)
      → p.saved ≡ some old
      → (update p s candidate expected preflight).0 ≡ saved
      → (expected ≡ old.revision)
        × (valid_device_settings candidate ≡ true)
        × (preflight candidate ≡ true)
        × (device_eq candidate old.value ≡ false)
        × (p.writable ≡ true)
  unfolding update
  settings_update_saved p s candidate expected preflight old here done = ground arith

  -- A start from a storable value makes it the saved value.
  pub settings_begin_loaded :
      (defaults : DeviceSettings) (s : S) (v : SavedSettings)
      → IsStorable v
      → ((d : SavedSettings) → st.load d s ≡ (LoadResult.loaded, v))
      → (begin defaults s).1 ≡ record { saved = some v; writable = true }
  unfolding begin
  settings_begin_loaded defaults s v ok found = ground (arith, found fresh, ok.valid, ok.positive)

  -- A start that succeeds, also one that writes the defaults to an empty medium, leaves a medium
  -- from which the next start restores the same value, with any defaults.
  pub settings_begin_again :
      (defaults others : DeviceSettings) (s : S)
      → IsDurable st
      → (begin defaults s).0 ≡ true
      → ((begin others (begin defaults s).2).0 ≡ true)
        × ((begin others (begin defaults s).2).1 ≡ (begin defaults s).1)
  unfolding begin
  settings_begin_again defaults others s durable done =
      ground (arith, durable (first_saved defaults) fresh s)

-- The service behind the laws of `Storage.Laws`. A call is the candidate, the expected revision and
-- the preflight.
abbrev pub settings_service :
    {S : Type 0}
    → Store S SavedSettings
    → DeviceSettings
    → Service S SavedSettings (DeviceSettings × ℕ × (DeviceSettings → Bool))
settings_service st defaults = record {
  store = st;
  revision = λ v. v.revision;
  IsStorable = IsStorable;
  IsCall = λ c. c.1 < u32_mod;
  begin = λ s. (begin st defaults s).1;
  update = λ p s c. let r = update st p s c.0 c.1 c.2 in (r.1, r.2);
  candidate = λ c. next_saved c.0 c.1;
  outcome = λ p s c. outcome_of p (update st p s c.0 c.1 c.2).0;
  restores = settings_begin_loaded st defaults;
  keeps = λ p s c h. settings_update-Update st p s c.0 c.1 c.2 h;
}

abbrev Restored :
    {S : Type 0}
    → Store S SavedSettings
    → DeviceSettings
    → S
    → List (DeviceSettings × ℕ × (DeviceSettings → Bool))
    → Preferences SavedSettings
    → Type 0
Restored st defaults s calls p =
    let svc = settings_service st defaults in
    (run svc p s calls).0.writable ≡ true
    → (begin st defaults (run svc p s calls).1).1 ≡ (run svc p s calls).0

-- After a successful start, on an empty medium too, and any sequence of updates with 32-bit
-- revisions that leaves the settings service healthy, the next start restores exactly what is in
-- memory, for a store whose successful writes are durable.
pub begin-run_settings :
    {S : Type 0} (st : Store S SavedSettings) (defaults : DeviceSettings) (s : S)
    (calls : List (DeviceSettings × ℕ × (DeviceSettings → Bool)))
    → IsDurable st
    → (begin st defaults s).0 ≡ true
    → All (λ c. c.1 < u32_mod) calls
    → (run
        (settings_service st defaults)
        (begin st defaults s).1
        (begin st defaults s).2
        calls).0.writable
      ≡ true
    → (begin st defaults
        (run
          (settings_service st defaults)
          (begin st defaults s).1
          (begin st defaults s).2
          calls).1).1
      ≡ (run (settings_service st defaults) (begin st defaults s).1 (begin st defaults s).2 calls).0
begin-run_settings st defaults s calls durable started bounded =
    subst (Restored st defaults (begin st defaults s).2 calls)
      (settings_begin_again st defaults defaults s durable started).1
      (begin-run (settings_service st defaults) (begin st defaults s).2 calls durable bounded)
