-- ===== src/Storage/Laws.antt =====
-- What every update of a revisioned preference promises, and what follows from it for any sequence
-- of updates. The services' own files show that their `update` keeps the promise.
use openathan.Base.{ℕ, ◌+◌, ◌≡◌, refl, true, false, Option, none, some, List, [], ◌∷◌, All, arith}
use openathan.Storage.{LoadResult, Store, IsDurable, IsDurableOn, Preferences}

-- What became of one update.
pub data Outcome : Type 0 where
  kept stored closed : Outcome

abbrev pub count_stored : List Outcome → ℕ
count_stored [] = 0
count_stored (kept ∷ os) = count_stored os
count_stored (stored ∷ os) = count_stored os + 1
count_stored (closed ∷ os) = count_stored os

abbrev pub revision_of : {V : Type 0} → (V → ℕ) → Option V → ℕ
revision_of revision none = 0
revision_of revision (some v) = revision v

-- One update with candidate `new`: nothing changes, or the next revision is written to the medium
-- and then kept in memory, or the write fails and the service is closed with its value unchanged.
abbrev pub Update :
    {S V : Type 0}
    → Store S V
    → (V → ℕ)
    → (V → Type 0)
    → Preferences V
    → S
    → V
    → Outcome
    → Preferences V
    → S
    → Type 0
Update st revision IsStorable p s new kept p' s' = (p' ≡ p) × (s' ≡ s)
Update st revision IsStorable p s new stored p' s' =
    (p.writable ≡ true)
    × IsStorable new
    × (revision new ≡ revision_of revision p.saved + 1)
    × ((st.save new s).0 ≡ true)
    × (p' ≡ record { saved = some new; writable = true })
    × (s' ≡ (st.save new s).1)
Update st revision IsStorable p s new closed p' s' =
    (p.writable ≡ true)
    × ((st.save new s).0 ≡ false)
    × (p' ≡ record { saved = p.saved; writable = false })
    × (s' ≡ (st.save new s).1)

-- What a service is: its medium, the revision of a value, the values that it may keep, its start
-- and its update by a call of type `C`, with what the update would write and what became of it.
pub record Service (S V C : Type 0) : Type 1 where
  pub store : Store S V
  pub revision : V → ℕ
  pub IsStorable : V → Type 0
  pub IsCall : C → Type 0
  pub begin : S → Preferences V
  pub update : Preferences V → S → C → Preferences V × S
  pub candidate : C → V
  pub outcome : Preferences V → S → C → Outcome
  -- A start from a medium that holds a storable value.
  pub restores :
      (s : S) (v : V)
      → IsStorable v
      → ((d : V) → store.load d s ≡ (LoadResult.loaded, v))
      → begin s ≡ record { saved = some v; writable = true }
  pub keeps :
      (p : Preferences V) (s : S) (c : C)
      → IsCall c
      → Update store revision IsStorable p s
          (candidate c)
          (outcome p s c)
          (update p s c).0
          (update p s c).1

module _ {S V C : Type 0} (c : Service S V C) where
  open c use {
    store, revision, IsStorable, IsCall, begin, update, candidate, outcome, restores, keeps,
  }

  data History : Preferences V → S → List Outcome → Preferences V → S → Type 0 where
    done : {p : Preferences V} {s : S} → History p s [] p s
    next :
        {p q r : Preferences V} {s t u : S} (o : Outcome) {os : List Outcome} (new : V)
        → Update store revision IsStorable p s new o q t
        → History q t os r u
        → History p s (o ∷ os) r u

  -- The revision of the saved value counts the successful writes.
  History-revision :
      {p q : Preferences V} {s t : S} {os : List Outcome}
      → History p s os q t
      → revision_of revision q.saved ≡ revision_of revision p.saved + count_stored os
  History-revision done = omega arith
  History-revision (next kept new u rest) = ground (arith, History-revision rest)
  History-revision (next stored new u rest) = ground (arith, History-revision rest)
  History-revision (next closed new u rest) = ground (arith, History-revision rest)

  -- Only a writable service comes out of an update writable.
  Update-writable :
      (p : Preferences V) (s : S) (new : V) (o : Outcome) (q : Preferences V) (t : S)
      → Update store revision IsStorable p s new o q t
      → q.writable ≡ true
      → p.writable ≡ true
  Update-writable p s new kept q t u able = ground arith
  Update-writable p s new stored q t u able = u.0
  Update-writable p s new closed q t u able = u.0

  History-writable :
      {p q : Preferences V} {s t : S} {os : List Outcome}
      → History p s os q t
      → q.writable ≡ true
      → p.writable ≡ true
  History-writable done able = able
  History-writable (next o new u rest) able =
      Update-writable _ _ new o _ _ u (History-writable rest able)

  -- After one update that leaves the service writable, a restart restores what is in memory.
  begin-Update :
      (p : Preferences V) (s : S) (new : V) (o : Outcome) (q : Preferences V) (t : S)
      → IsDurableOn IsStorable store
      → begin s ≡ p
      → Update store revision IsStorable p s new o q t
      → q.writable ≡ true
      → begin t ≡ q
  begin-Update p s new kept q t durable here u able = ground arith
  begin-Update p s new stored q t durable here u able =
      ground (arith, restores t new u.1 λ d. ground (arith, durable new d s u.1 u.3))
  begin-Update p s new closed q t durable here u able = ground arith

  -- So after any sequence of updates that leaves it writable.
  begin-History :
      {p q : Preferences V} {s t : S} {os : List Outcome}
      → IsDurableOn IsStorable store
      → begin s ≡ p
      → History p s os q t
      → q.writable ≡ true
      → begin t ≡ q
  begin-History durable here done able = here
  begin-History durable here (next o new u rest) able =
      begin-History durable (begin-Update _ _ new o _ _ durable here u (History-writable rest able))
        rest able

  -- A sequence of calls, and what became of each.
  unfoldable pub run : Preferences V → S → List C → Preferences V × S
  run p s [] = (p, s)
  run p s (x ∷ xs) = run (update p s x).0 (update p s x).1 xs

  unfoldable pub outcomes : Preferences V → S → List C → List Outcome
  outcomes p s [] = []
  outcomes p s (x ∷ xs) = outcome p s x ∷ outcomes (update p s x).0 (update p s x).1 xs

  run-History :
      (p : Preferences V) (s : S) (xs : List C)
      → All IsCall xs
      → History p s (outcomes p s xs) (run p s xs).0 (run p s xs).1
  unfolding run outcomes
  run-History p s [] h = done
  run-History p s (x ∷ xs) h =
      next (outcome p s x) (candidate x) (keeps p s x h.0)
        (run-History (update p s x).0 (update p s x).1 xs h.1)

  -- After any calls that leave the service writable, a start restores what is in memory, if the
  -- medium keeps the values that the service stores.
  pub begin-run_on :
      (s : S) (xs : List C)
      → IsDurableOn IsStorable store
      → All IsCall xs
      → (run (begin s) s xs).0.writable ≡ true
      → begin (run (begin s) s xs).1 ≡ (run (begin s) s xs).0
  begin-run_on s xs durable h able = begin-History durable refl (run-History (begin s) s xs h) able

  pub begin-run :
      (s : S) (xs : List C)
      → IsDurable store
      → All IsCall xs
      → (run (begin s) s xs).0.writable ≡ true
      → begin (run (begin s) s xs).1 ≡ (run (begin s) s xs).0
  begin-run s xs durable h able = begin-run_on s xs (λ v d t ok saved. durable v d t saved) h able

  pub revision-run :
      (p : Preferences V) (s : S) (xs : List C)
      → All IsCall xs
      → revision_of revision (run p s xs).0.saved
        ≡ revision_of revision p.saved + count_stored (outcomes p s xs)
  revision-run p s xs h = History-revision (run-History p s xs h)
