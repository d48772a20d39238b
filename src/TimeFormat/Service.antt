-- ===== src/TimeFormat/Service.antt =====
-- `TimeFormatPreferences::begin` and `update`.
use openathan.Base.{
  ℕ, ◌+◌, ◌%◌, ◌<◌, ◌≡◌, true, false, not, ◌&&◌, ◌||◌, ◌⊎◌, none, some, is_some, List, All, ◌⊎◌,
  ◌==◌, if◌then◌else◌, arith,
}
use openathan.Bytes.{u32_mod}
use openathan.Storage.{LoadResult, Store, IsDurable, Preferences, unopened}
use openathan.Storage.Laws.{Service, run, begin-run, Outcome, kept, stored, closed, Update}
use openathan.TimeFormat.Record.{IsStorable}
use openathan.TimeFormat.{SavedTimeFormat}

pub data TimeFormatResult : Type 0 where
  saved unchanged invalid conflict storage : TimeFormatResult

-- What `update` would write.
unfoldable pub next_saved : ℕ → ℕ → SavedTimeFormat
next_saved hours revision = record { revision = (revision + 1) % u32_mod; hours = hours }

unfoldable pub outcome_of : Preferences SavedTimeFormat → TimeFormatResult → Outcome
outcome_of p saved = stored
outcome_of p storage = if is_some p.saved && p.writable then closed else kept
outcome_of p _ = kept

-- `SavedTimeFormat value;`
abbrev fresh : SavedTimeFormat
fresh = record { revision = 0; hours = 24 }

-- Absence is a virtual revision 1.
abbrev virtual_first : SavedTimeFormat
virtual_first = record { revision = 1; hours = 24 }

-- The last test of `begin`.
accept : SavedTimeFormat → Preferences SavedTimeFormat
accept value =
    if value.revision == 0 || (not (value.hours == 12) && not (value.hours == 24))
    then unopened
    else record { saved = some value; writable = true }

module _ {S : Type 0} (st : Store S SavedTimeFormat) where
  unfoldable pub begin : S → Preferences SavedTimeFormat
  unfolding accept
  begin s = elim (st.load fresh s).0 [
    | LoadResult.error ↦ unopened
    | LoadResult.empty ↦ accept virtual_first
    | LoadResult.loaded ↦ accept (st.load fresh s).1
  ]

  -- `update` behind its first test.
  update_from :
      SavedTimeFormat
      → Preferences SavedTimeFormat
      → S
      → ℕ
      → ℕ
      → TimeFormatResult × Preferences SavedTimeFormat × S
  update_from old p s hours revision =
      let new = next_saved hours revision in
      if not (hours == 12) && not (hours == 24)
      then (invalid, p, s)
      else if not (revision == old.revision)
      then (conflict, p, s)
      else if hours == old.hours
      then (unchanged, p, s)
      else if revision == 0xFFFF_FFFF
      then (conflict, p, s)
      else if not (st.save new s).0
      then (storage, record p { writable = false }, (st.save new s).1)
      else (saved, record p { saved = some new }, (st.save new s).1)

  unfoldable pub update :
      Preferences SavedTimeFormat → S → ℕ → ℕ → TimeFormatResult × Preferences SavedTimeFormat × S
  unfolding update_from next_saved
  update p s hours revision = elim p.saved [
    | none ↦ (storage, p, s)
    | some old ↦ if not p.writable then (storage, p, s) else update_from old p s hours revision
  ]

  -- Every update refuses, stores the next revision, or closes the service.
  pub time_format_update-Update :
      (p : Preferences SavedTimeFormat) (s : S) (hours revision : ℕ)
      → revision < u32_mod
      → let r = update p s hours revision in
        Update st
          (λ v. v.revision)
          IsStorable
          p
          s
          (next_saved hours revision)
          (outcome_of p r.0)
          r.1
          r.2
  unfolding update next_saved outcome_of
  time_format_update-Update p s b rev small = ground arith

  -- A start from a storable value makes it the saved value.
  pub time_format_begin_loaded :
      (s : S) (v : SavedTimeFormat)
      → IsStorable v
      → ((d : SavedTimeFormat) → st.load d s ≡ (LoadResult.loaded, v))
      → begin s ≡ record { saved = some v; writable = true }
  unfolding begin
  time_format_begin_loaded s v ok found = ground (arith, found fresh)

  -- Of two updates with one revision, the second is not saved if the first was.
  pub time_format_update_stale :
      (p : Preferences SavedTimeFormat) (s : S) (hours other revision : ℕ)
      → revision < u32_mod
      → let r = update p s hours revision in
        r.0 ≡ saved
        → ((update r.1 r.2 other revision).0 ≡ conflict)
          ⊎ ((update r.1 r.2 other revision).0 ≡ invalid)
  unfolding update next_saved
  time_format_update_stale p s b other rev small done = ground arith

-- The service behind the laws of `Storage.Laws`. A call is a number of hours and a revision.
abbrev pub time_format_service :
    {S : Type 0} → Store S SavedTimeFormat → Service S SavedTimeFormat (ℕ × ℕ)
time_format_service st = record {
  store = st;
  revision = λ v. v.revision;
  IsStorable = IsStorable;
  IsCall = λ c. c.1 < u32_mod;
  begin = begin st;
  update = λ p s c. let r = update st p s c.0 c.1 in (r.1, r.2);
  candidate = λ c. next_saved c.0 c.1;
  outcome = λ p s c. outcome_of p (update st p s c.0 c.1).0;
  restores = time_format_begin_loaded st;
  keeps = λ p s c h. time_format_update-Update st p s c.0 c.1 h;
}

-- After any sequence of updates with 32-bit revisions that leaves the time format service writable,
-- a start from the medium restores exactly what is in memory, for a store whose successful writes
-- are durable.
pub begin-run_time_format :
    {S : Type 0} (st : Store S SavedTimeFormat) (s : S) (calls : List (ℕ × ℕ))
    → IsDurable st
    → All (λ c. c.1 < u32_mod) calls
    → (run (time_format_service st) (begin st s) s calls).0.writable ≡ true
    → begin st (run (time_format_service st) (begin st s) s calls).1
      ≡ (run (time_format_service st) (begin st s) s calls).0
begin-run_time_format st s calls durable h able =
    begin-run (time_format_service st) s calls durable h able
