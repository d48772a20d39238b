-- ===== src/Display/Service.antt =====
-- `DisplayPreferences::begin` and `update`.
use openathan.Base.{
  ℕ, ◌+◌, ◌%◌, ◌<◌, ◌≡◌, true, false, not, ◌&&◌, ◌||◌, none, some, ltb, is_some, List, All, ◌⊎◌,
  ◌==◌, if◌then◌else◌, arith,
}
use openathan.Bytes.{u32_mod}
use openathan.Storage.{LoadResult, Store, IsDurable, Preferences, unopened}
use openathan.Storage.Laws.{Service, run, begin-run, Outcome, kept, stored, closed, Update}
use openathan.Display.Record.{IsStorable}
use openathan.Display.{SavedDisplay, default_display_brightness_percent}

pub data DisplayResult : Type 0 where
  saved unchanged invalid conflict storage : DisplayResult

-- What `update` would write.
unfoldable pub next_saved : ℕ → ℕ → SavedDisplay
next_saved brightness_percent revision = record {
  revision = (revision + 1) % u32_mod;
  brightness_percent = brightness_percent;
}

unfoldable pub outcome_of : Preferences SavedDisplay → DisplayResult → Outcome
outcome_of p saved = stored
outcome_of p storage = if is_some p.saved && p.writable then closed else kept
outcome_of p _ = kept

-- `SavedDisplay value;`
abbrev fresh : SavedDisplay
fresh = record { revision = 0; brightness_percent = default_display_brightness_percent }

-- Absence is a virtual revision 1.
abbrev virtual_first : SavedDisplay
virtual_first = record { revision = 1; brightness_percent = default_display_brightness_percent }

-- The last test of `begin`.
accept : SavedDisplay → Preferences SavedDisplay
accept value =
    if value.revision == 0 || (ltb value.brightness_percent 1 || ltb 100 value.brightness_percent)
    then unopened
    else record { saved = some value; writable = true }

module _ {S : Type 0} (st : Store S SavedDisplay) where
  unfoldable pub begin : S → Preferences SavedDisplay
  unfolding accept
  begin s = elim (st.load fresh s).0 [
    | LoadResult.error ↦ unopened
    | LoadResult.empty ↦ accept virtual_first
    | LoadResult.loaded ↦ accept (st.load fresh s).1
  ]

  -- `update` behind its first test.
  update_from :
      SavedDisplay
      → Preferences SavedDisplay
      → S
      → ℕ
      → ℕ
      → DisplayResult × Preferences SavedDisplay × S
  update_from old p s brightness_percent revision =
      let new = next_saved brightness_percent revision in
      if ltb brightness_percent 1 || ltb 100 brightness_percent
      then (invalid, p, s)
      else if not (revision == old.revision)
      then (conflict, p, s)
      else if brightness_percent == old.brightness_percent
      then (unchanged, p, s)
      else if revision == 0xFFFF_FFFF
      then (conflict, p, s)
      else if not (st.save new s).0
      then (storage, record p { writable = false }, (st.save new s).1)
      else (saved, record p { saved = some new }, (st.save new s).1)

  unfoldable pub update :
      Preferences SavedDisplay → S → ℕ → ℕ → DisplayResult × Preferences SavedDisplay × S
  unfolding update_from next_saved
  update p s brightness_percent revision = elim p.saved [
    | none ↦ (storage, p, s)
    | some old ↦
        if not p.writable then (storage, p, s) else update_from old p s brightness_percent revision
  ]

  -- Every update refuses, stores the next revision, or closes the service.
  pub display_update-Update :
      (p : Preferences SavedDisplay) (s : S) (brightness_percent revision : ℕ)
      → revision < u32_mod
      → let r = update p s brightness_percent revision in
        Update st
          (λ v. v.revision)
          IsStorable
          p
          s
          (next_saved brightness_percent revision)
          (outcome_of p r.0)
          r.1
          r.2
  unfolding update next_saved outcome_of
  display_update-Update p s b rev small = ground arith

  -- A start from a storable value makes it the saved value.
  pub display_begin_loaded :
      (s : S) (v : SavedDisplay)
      → IsStorable v
      → ((d : SavedDisplay) → st.load d s ≡ (LoadResult.loaded, v))
      → begin s ≡ record { saved = some v; writable = true }
  unfolding begin
  display_begin_loaded s v ok found = ground (arith, found fresh)

  -- Of two updates with one revision, the second is not saved if the first was.
  pub display_update_stale :
      (p : Preferences SavedDisplay) (s : S) (brightness_percent other revision : ℕ)
      → revision < u32_mod
      → let r = update p s brightness_percent revision in
        r.0 ≡ saved
        → ((update r.1 r.2 other revision).0 ≡ conflict)
          ⊎ ((update r.1 r.2 other revision).0 ≡ invalid)
  unfolding update next_saved
  display_update_stale p s b other rev small done = ground arith

-- The service behind the laws of `Storage.Laws`. A call is a brightness and a revision.
abbrev pub display_service : {S : Type 0} → Store S SavedDisplay → Service S SavedDisplay (ℕ × ℕ)
display_service st = record {
  store = st;
  revision = λ v. v.revision;
  IsStorable = IsStorable;
  IsCall = λ c. c.1 < u32_mod;
  begin = begin st;
  update = λ p s c. let r = update st p s c.0 c.1 in (r.1, r.2);
  candidate = λ c. next_saved c.0 c.1;
  outcome = λ p s c. outcome_of p (update st p s c.0 c.1).0;
  restores = display_begin_loaded st;
  keeps = λ p s c h. display_update-Update st p s c.0 c.1 h;
}

-- After any sequence of updates with 32-bit revisions that leaves the brightness service writable,
-- a start from the medium restores exactly what is in memory, for a store whose successful writes
-- are durable.
pub begin-run_display :
    {S : Type 0} (st : Store S SavedDisplay) (s : S) (calls : List (ℕ × ℕ))
    → IsDurable st
    → All (λ c. c.1 < u32_mod) calls
    → (run (display_service st) (begin st s) s calls).0.writable ≡ true
    → begin st (run (display_service st) (begin st s) s calls).1
      ≡ (run (display_service st) (begin st s) s calls).0
begin-run_display st s calls durable h able = begin-run (display_service st) s calls durable h able
