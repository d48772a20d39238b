-- ===== src/DuaPreference/Service.antt =====
-- `DuaPreferences::begin` and `update`.
use openathan.Base.{
  Bool, bool_eq, ℕ, ◌+◌, ◌%◌, ◌<◌, ◌≡◌, true, false, not, ◌&&◌, ◌||◌, none, some, is_some, List,
  All, ◌==◌, if◌then◌else◌, arith,
}
use openathan.Bytes.{u32_mod}
use openathan.Storage.{LoadResult, Store, IsDurable, Preferences, unopened}
use openathan.Storage.Laws.{Service, run, begin-run, Outcome, kept, stored, closed, Update}
use openathan.DuaPreference.Record.{IsStorable}
use openathan.DuaPreference.{SavedDua}

pub data DuaSaveResult : Type 0 where
  saved unchanged conflict storage : DuaSaveResult

-- What `update` would write.
unfoldable pub next_saved : Bool → ℕ → SavedDua
next_saved enabled revision = record { revision = (revision + 1) % u32_mod; enabled = enabled }

unfoldable pub outcome_of : Preferences SavedDua → DuaSaveResult → Outcome
outcome_of p saved = stored
outcome_of p storage = if is_some p.saved && p.writable then closed else kept
outcome_of p _ = kept

-- `SavedDua v;` and `SavedDua{}`.
abbrev fresh : SavedDua
fresh = record { revision = 1; enabled = false }

-- The end of `begin`: `EMPTY` gives a `SavedDua{}`, but the loaded revision is tested first.
accept : SavedDua → SavedDua → Preferences SavedDua
accept loaded value =
    if loaded.revision == 0 then unopened else record { saved = some value; writable = true }

module _ {S : Type 0} (st : Store S SavedDua) where
  unfoldable pub begin : S → Preferences SavedDua
  unfolding accept
  begin s = elim (st.load fresh s).0 [
    | LoadResult.error ↦ unopened
    | LoadResult.empty ↦ accept (st.load fresh s).1 fresh
    | LoadResult.loaded ↦ accept (st.load fresh s).1 (st.load fresh s).1
  ]

  -- `update` behind its first test.
  update_from :
      SavedDua → Preferences SavedDua → S → Bool → ℕ → DuaSaveResult × Preferences SavedDua × S
  update_from old p s enabled revision =
      let new = next_saved enabled revision in
      if not (revision == old.revision) || revision == 0xFFFF_FFFF
      then (conflict, p, s)
      else if bool_eq enabled old.enabled
      then (unchanged, p, s)
      else if not (st.save new s).0
      then (storage, record p { writable = false }, (st.save new s).1)
      else (saved, record p { saved = some new }, (st.save new s).1)

  unfoldable pub update :
      Preferences SavedDua → S → Bool → ℕ → DuaSaveResult × Preferences SavedDua × S
  unfolding update_from next_saved
  update p s enabled revision = elim p.saved [
    | none ↦ (storage, p, s)
    | some old ↦ if not p.writable then (storage, p, s) else update_from old p s enabled revision
  ]

  -- Every update refuses, stores the next revision, or closes the service.
  pub dua_update-Update :
      (p : Preferences SavedDua) (s : S) (enabled : Bool) (revision : ℕ)
      → revision < u32_mod
      → let r = update p s enabled revision in
        Update st
          (λ v. v.revision)
          IsStorable
          p
          s
          (next_saved enabled revision)
          (outcome_of p r.0)
          r.1
          r.2
  unfolding update next_saved outcome_of
  dua_update-Update p s b rev small = ground arith

  -- A start from a storable value makes it the saved value.
  pub dua_begin_loaded :
      (s : S) (v : SavedDua)
      → IsStorable v
      → ((d : SavedDua) → st.load d s ≡ (LoadResult.loaded, v))
      → begin s ≡ record { saved = some v; writable = true }
  unfolding begin
  dua_begin_loaded s v ok found = ground (arith, found fresh)

  -- Of two updates with one revision, the second is not saved if the first was.
  pub dua_update_stale :
      (p : Preferences SavedDua) (s : S) (enabled other : Bool) (revision : ℕ)
      → revision < u32_mod
      → let r = update p s enabled revision in
        r.0 ≡ saved → (update r.1 r.2 other revision).0 ≡ conflict
  unfolding update next_saved
  dua_update_stale p s b other rev small done = ground arith

-- The service behind the laws of `Storage.Laws`. A call is the choice and a revision.
abbrev pub dua_service : {S : Type 0} → Store S SavedDua → Service S SavedDua (Bool × ℕ)
dua_service st = record {
  store = st;
  revision = λ v. v.revision;
  IsStorable = IsStorable;
  IsCall = λ c. c.1 < u32_mod;
  begin = begin st;
  update = λ p s c. let r = update st p s c.0 c.1 in (r.1, r.2);
  candidate = λ c. next_saved c.0 c.1;
  outcome = λ p s c. outcome_of p (update st p s c.0 c.1).0;
  restores = dua_begin_loaded st;
  keeps = λ p s c h. dua_update-Update st p s c.0 c.1 h;
}

-- After any sequence of updates with 32-bit revisions that leaves the du'a preference service
-- writable, a start from the medium restores exactly what is in memory, for a store whose
-- successful writes are durable.
pub begin-run_dua :
    {S : Type 0} (st : Store S SavedDua) (s : S) (calls : List (Bool × ℕ))
    → IsDurable st
    → All (λ c. c.1 < u32_mod) calls
    → (run (dua_service st) (begin st s) s calls).0.writable ≡ true
    → begin st (run (dua_service st) (begin st s) s calls).1
      ≡ (run (dua_service st) (begin st s) s calls).0
begin-run_dua st s calls durable h able = begin-run (dua_service st) s calls durable h able
