-- ===== src/SpeakerName/Service.antt =====
-- `SpeakerNamePreferences::begin` and `update`.
use openathan.Base.{
  ℕ, ◌+◌, ◌%◌, ◌≤◌, ◌<◌, ◌≡◌, refl, sym, subst, inl, inr, Option-cases, Bool-cases, Bool, true,
  false, not, ◌&&◌, ◌||◌, Option, none, some, List, [], All, is_some, list_eq, ◌==◌, if◌then◌else◌,
  arith, list_eq_self,
}
use openathan.Bytes.{u32_mod}
use openathan.Storage.{LoadResult, Store, IsDurable, Preferences, unopened}
use openathan.Storage.Laws.{Service, run, begin-run, Outcome, kept, stored, closed, Update}
use openathan.SpeakerName.{SavedSpeakerName, normalize_speaker_name}
use openathan.SpeakerName.Text.{normalize_speaker_name_again}

pub data SpeakerNameResult : Type 0 where
  saved unchanged invalid conflict storage : SpeakerNameResult

abbrev pub IsStorable : SavedSpeakerName → Type 0
IsStorable v =
    (1 ≤ v.revision) × (v.revision < u32_mod) × (normalize_speaker_name v.name ≡ some v.name)

abbrev name_or_empty : Option (List ℕ) → List ℕ
name_or_empty none = []
name_or_empty (some name) = name

-- What `update` would write.
unfoldable pub next_saved : Option (List ℕ) → ℕ → SavedSpeakerName
next_saved name revision = record { revision = (revision + 1) % u32_mod; name = name_or_empty name }

unfoldable pub outcome_of : Preferences SavedSpeakerName → SpeakerNameResult → Outcome
outcome_of p saved = stored
outcome_of p storage = if is_some p.saved && p.writable then closed else kept
outcome_of p _ = kept

-- `SavedSpeakerName value;`, and the virtual first one.
abbrev fresh : SavedSpeakerName
fresh = record { revision = 0; name = [] }

abbrev virtual_first : SavedSpeakerName
virtual_first = record { revision = 1; name = [] }

-- `normalize_speaker_name(name, normalized) && normalized == name`.
abbrev pub is_normal : List ℕ → Option (List ℕ) → Bool
is_normal name none = false
is_normal name (some normalized) = list_eq normalized name

-- The last test of `begin`.
accept : SavedSpeakerName → Preferences SavedSpeakerName
accept value =
    if value.revision == 0 || not (is_normal value.name (normalize_speaker_name value.name))
    then unopened
    else record { saved = some value; writable = true }

module _ {S : Type 0} (st : Store S SavedSpeakerName) where
  unfoldable pub begin : S → Preferences SavedSpeakerName
  unfolding accept
  begin s = elim (st.load fresh s).0 [
    | LoadResult.error ↦ unopened
    | LoadResult.empty ↦ accept virtual_first
    | LoadResult.loaded ↦ accept (st.load fresh s).1
  ]

  -- `update` behind the normalisation, with its result.
  update_named :
      SavedSpeakerName
      → Preferences SavedSpeakerName
      → S
      → List ℕ
      → ℕ
      → SpeakerNameResult × Preferences SavedSpeakerName × S
  update_named old p s name revision =
      let new = next_saved (some name) revision in
      if not (revision == old.revision)
      then (conflict, p, s)
      else if list_eq name old.name
      then (unchanged, p, s)
      else if revision == 0xFFFF_FFFF
      then (conflict, p, s)
      else if not (st.save new s).0
      then (storage, record p { writable = false }, (st.save new s).1)
      else (saved, record p { saved = some new }, (st.save new s).1)

  update_from :
      SavedSpeakerName
      → Preferences SavedSpeakerName
      → S
      → Option (List ℕ)
      → ℕ
      → SpeakerNameResult × Preferences SavedSpeakerName × S
  unfolding update_named
  update_from old p s none revision = (invalid, p, s)
  update_from old p s (some name) revision = update_named old p s name revision

  unfoldable pub update :
      Preferences SavedSpeakerName
      → S
      → List ℕ
      → ℕ
      → SpeakerNameResult × Preferences SavedSpeakerName × S
  unfolding update_from next_saved
  update p s input revision = elim p.saved [
    | none ↦ (storage, p, s)
    | some old ↦
        if not p.writable
        then (storage, p, s)
        else update_from old p s (normalize_speaker_name input) revision
  ]

  update_from-Update :
      (old : SavedSpeakerName) (p : Preferences SavedSpeakerName) (s : S) (o : Option (List ℕ))
      (revision : ℕ)
      → revision < u32_mod
      → p.saved ≡ some old
      → p.writable ≡ true
      → ((name : List ℕ) → o ≡ some name → normalize_speaker_name name ≡ some name)
      → let r = update_from old p s o revision in
        Update st
          (λ v. v.revision)
          IsStorable
          p
          s
          (next_saved o revision)
          (outcome_of p r.0)
          r.1
          r.2
  unfolding update_from update_named next_saved outcome_of
  update_from-Update old p s none revision small here able normal = ground arith
  update_from-Update old p s (some name) revision small here able normal =
      ground (arith, normal name refl)

  update_opened :
      (p : Preferences SavedSpeakerName) (s : S) (input : List ℕ) (revision : ℕ)
      (old : SavedSpeakerName)
      → p.saved ≡ some old
      → p.writable ≡ true
      → update p s input revision ≡ update_from old p s (normalize_speaker_name input) revision
  unfolding update
  update_opened p s input revision old e w = ground (arith, e, w)

  -- For a revision of 32 bits, an update of the name changes nothing, or writes the next revision
  -- with the normalised input to the medium and then keeps it in memory, or fails to write it and
  -- closes the service with its name unchanged.
  pub speaker_name_update-Update :
      (p : Preferences SavedSpeakerName) (s : S) (input : List ℕ) (revision : ℕ)
      → revision < u32_mod
      → let r = update p s input revision in
        Update st
          (λ v. v.revision)
          IsStorable
          p
          s
          (next_saved (normalize_speaker_name input) revision)
          (outcome_of p r.0)
          r.1
          r.2
  unfolding update outcome_of
  speaker_name_update-Update p s input revision small =
      let normal = normalize_speaker_name input in
      elim (Option-cases p.saved) [
        | inl e ↦ ground (arith, e)
        | inr (old, e) ↦ elim (Bool-cases p.writable) [
          | inl w ↦
              subst
                (λ r.
                  Update st (λ v. v.revision) IsStorable p s (next_saved normal revision)
                    (outcome_of p r.0) r.1 r.2)
                (sym (update_opened p s input revision old e w))
                (update_from-Update old p s normal revision small e w
                  (normalize_speaker_name_again input))
          | inr w ↦ ground (arith, e, w)
        ]
      ]

  -- A start from a storable value makes it the saved value.
  pub speaker_name_begin_loaded :
      (s : S) (v : SavedSpeakerName)
      → IsStorable v
      → ((d : SavedSpeakerName) → st.load d s ≡ (LoadResult.loaded, v))
      → begin s ≡ record { saved = some v; writable = true }
  unfolding begin
  speaker_name_begin_loaded s v ok found = ground (arith, found fresh, ok.2, list_eq_self v.name)

-- The service behind the laws of `Storage.Laws`. A call is the input and a revision.
abbrev pub speaker_name_service :
    {S : Type 0} → Store S SavedSpeakerName → Service S SavedSpeakerName (List ℕ × ℕ)
speaker_name_service st = record {
  store = st;
  revision = λ v. v.revision;
  IsStorable = IsStorable;
  IsCall = λ c. c.1 < u32_mod;
  begin = begin st;
  update = λ p s c. let r = update st p s c.0 c.1 in (r.1, r.2);
  candidate = λ c. next_saved (normalize_speaker_name c.0) c.1;
  outcome = λ p s c. outcome_of p (update st p s c.0 c.1).0;
  restores = speaker_name_begin_loaded st;
  keeps = λ p s c h. speaker_name_update-Update st p s c.0 c.1 h;
}

-- After any sequence of updates with 32-bit revisions that leaves the speaker name service
-- writable, a start from the medium restores exactly what is in memory, for a store whose
-- successful writes are durable.
pub begin-run_speaker_name :
    {S : Type 0} (st : Store S SavedSpeakerName) (s : S) (calls : List (List ℕ × ℕ))
    → IsDurable st
    → All (λ c. c.1 < u32_mod) calls
    → (run (speaker_name_service st) (begin st s) s calls).0.writable ≡ true
    → begin st (run (speaker_name_service st) (begin st s) s calls).1
      ≡ (run (speaker_name_service st) (begin st s) s calls).0
begin-run_speaker_name st s calls durable h able =
    begin-run (speaker_name_service st) s calls durable h able
