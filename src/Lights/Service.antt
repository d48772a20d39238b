-- ===== src/Lights/Service.antt =====
-- `LightPreferences::begin` and `update`.
use openathan.Base.{
  Bool, bool_eq, ℕ, ◌+◌, ◌%◌, ◌<◌, ◌≡◌, true, false, not, ◌&&◌, ◌||◌, none, some, ltb, is_some,
  List, All, ◌⊎◌, ◌==◌, if◌then◌else◌, arith,
}
use openathan.Bytes.{u32_mod}
use openathan.Storage.{LoadResult, Store, IsDurable, Preferences, unopened}
use openathan.Storage.Laws.{Service, run, begin-run, Outcome, kept, stored, closed, Update}
use openathan.Lights.Record.{IsStorable}
use openathan.Lights.{LightSettings, SavedLights}

pub data LightSaveResult : Type 0 where
  saved unchanged invalid conflict storage : LightSaveResult

-- What `update` would write.
unfoldable pub next_saved : LightSettings → ℕ → SavedLights
next_saved value revision = record { revision = (revision + 1) % u32_mod; value = value }

unfoldable pub outcome_of : Preferences SavedLights → LightSaveResult → Outcome
outcome_of p saved = stored
outcome_of p storage = if is_some p.saved && p.writable then closed else kept
outcome_of p _ = kept

-- `LightSettings{}`.
abbrev default_lights : LightSettings
default_lights = record { enabled = true; brightness_percent = 20 }

-- `operator==` of `LightSettings`.
abbrev pub lights_eq : LightSettings → LightSettings → Bool
lights_eq a b = bool_eq a.enabled b.enabled && a.brightness_percent == b.brightness_percent

-- `SavedLights value;`
abbrev fresh : SavedLights
fresh = record { revision = 0; value = default_lights }

-- Absence is a virtual revision 1.
abbrev virtual_first : SavedLights
virtual_first = record { revision = 1; value = default_lights }

-- The last test of `begin`.
accept : SavedLights → Preferences SavedLights
accept value =
    if value.revision == 0 || ltb 100 value.value.brightness_percent
    then unopened
    else record { saved = some value; writable = true }

module _ {S : Type 0} (st : Store S SavedLights) where
  unfoldable pub begin : S → Preferences SavedLights
  unfolding accept
  begin s = elim (st.load fresh s).0 [
    | LoadResult.error ↦ unopened
    | LoadResult.empty ↦ accept virtual_first
    | LoadResult.loaded ↦ accept (st.load fresh s).1
  ]

  -- `update` behind its first test.
  update_from :
      SavedLights
      → Preferences SavedLights
      → S
      → LightSettings
      → ℕ
      → LightSaveResult × Preferences SavedLights × S
  update_from old p s value revision =
      let new = next_saved value revision in
      if ltb 100 value.brightness_percent
      then (invalid, p, s)
      else if not (revision == old.revision)
      then (conflict, p, s)
      else if lights_eq value old.value
      then (unchanged, p, s)
      else if revision == 0xFFFF_FFFF
      then (conflict, p, s)
      else if not (st.save new s).0
      then (storage, record p { writable = false }, (st.save new s).1)
      else (saved, record p { saved = some new }, (st.save new s).1)

  unfoldable pub update :
      Preferences SavedLights
      → S
      → LightSettings
      → ℕ
      → LightSaveResult × Preferences SavedLights × S
  unfolding update_from next_saved
  update p s value revision = elim p.saved [
    | none ↦ (storage, p, s)
    | some old ↦ if not p.writable then (storage, p, s) else update_from old p s value revision
  ]

  -- Every update refuses, stores the next revision, or closes the service.
  pub lights_update-Update :
      (p : Preferences SavedLights) (s : S) (value : LightSettings) (revision : ℕ)
      → revision < u32_mod
      → let r = update p s value revision in
        Update st
          (λ v. v.revision)
          IsStorable
          p
          s
          (next_saved value revision)
          (outcome_of p r.0)
          r.1
          r.2
  unfolding update next_saved outcome_of
  lights_update-Update p s b rev small = ground arith

  -- A start from a storable value makes it the saved value.
  pub lights_begin_loaded :
      (s : S) (v : SavedLights)
      → IsStorable v
      → ((d : SavedLights) → st.load d s ≡ (LoadResult.loaded, v))
      → begin s ≡ record { saved = some v; writable = true }
  unfolding begin
  lights_begin_loaded s v ok found = ground (arith, found fresh)

  -- Of two updates with one revision, the second is not saved if the first was.
  pub lights_update_stale :
      (p : Preferences SavedLights) (s : S) (value other : LightSettings) (revision : ℕ)
      → revision < u32_mod
      → let r = update p s value revision in
        r.0 ≡ saved
        → ((update r.1 r.2 other revision).0 ≡ conflict)
          ⊎ ((update r.1 r.2 other revision).0 ≡ invalid)
  unfolding update next_saved
  lights_update_stale p s b other rev small done = ground arith

-- The service behind the laws of `Storage.Laws`. A call is the settings and a revision.
abbrev pub lights_service :
    {S : Type 0} → Store S SavedLights → Service S SavedLights (LightSettings × ℕ)
lights_service st = record {
  store = st;
  revision = λ v. v.revision;
  IsStorable = IsStorable;
  IsCall = λ c. c.1 < u32_mod;
  begin = begin st;
  update = λ p s c. let r = update st p s c.0 c.1 in (r.1, r.2);
  candidate = λ c. next_saved c.0 c.1;
  outcome = λ p s c. outcome_of p (update st p s c.0 c.1).0;
  restores = lights_begin_loaded st;
  keeps = λ p s c h. lights_update-Update st p s c.0 c.1 h;
}

-- After any sequence of updates with 32-bit revisions that leaves the light service writable, a
-- start from the medium restores exactly what is in memory, for a store whose successful writes are
-- durable.
pub begin-run_lights :
    {S : Type 0} (st : Store S SavedLights) (s : S) (calls : List (LightSettings × ℕ))
    → IsDurable st
    → All (λ c. c.1 < u32_mod) calls
    → (run (lights_service st) (begin st s) s calls).0.writable ≡ true
    → begin st (run (lights_service st) (begin st s) s calls).1
      ≡ (run (lights_service st) (begin st s) s calls).0
begin-run_lights st s calls durable h able = begin-run (lights_service st) s calls durable h able
