-- ===== src/Scheduler/Tick.antt =====
-- `Scheduler::tick` as a whole: what it may play, and what it leaves in memory and on the medium.
use openathan.Base.{
  ◌≡◌, ◌⊎◌, inl, inr, refl, ℤ, true, false, Option, none, some, List, Bool-cases, Option-cases,
  arith, eq_ℤ_iff,
}
use openathan.Storage.{Store}
use openathan.Scheduler.{
  Prayer, PerPrayer, EventKey, Event, DurableState, Scheduler, marks_eq, state_eq, key_eq,
  prayer_eq, skip_eq, fajr, dhuhr, asr, maghrib, isha,
}
use openathan.Scheduler.Machine.{settle_skip, persist}
use openathan.Scheduler.Marks.{LeMarks}

prayer_eq→eq : (a b : Prayer) → prayer_eq a b ≡ true → a ≡ b
prayer_eq→eq fajr b h = ground arith
prayer_eq→eq dhuhr b h = ground arith
prayer_eq→eq asr b h = ground arith
prayer_eq→eq maghrib b h = ground arith
prayer_eq→eq isha b h = ground arith

pub key_eq→eq : (a b : EventKey) → key_eq a b ≡ true → a ≡ b
key_eq→eq a b h = ground (arith, (eq_ℤ_iff a.day b.day).0, prayer_eq→eq a.prayer b.prayer)

skip_eq→eq : (a b : Option EventKey) → skip_eq a b ≡ true → a ≡ b
skip_eq→eq none none h = refl
skip_eq→eq none (some b) h = cc
skip_eq→eq (some a) none h = cc
skip_eq→eq (some a) (some b) h = cc (key_eq→eq a b h)

marks_eq→eq : (a b : PerPrayer ℤ) → marks_eq a b ≡ true → a ≡ b
marks_eq→eq a b h = ground (
  arith,
  (eq_ℤ_iff a.of_fajr b.of_fajr).0,
  (eq_ℤ_iff a.of_dhuhr b.of_dhuhr).0,
  (eq_ℤ_iff a.of_asr b.of_asr).0,
  (eq_ℤ_iff a.of_maghrib b.of_maghrib).0,
  (eq_ℤ_iff a.of_isha b.of_isha).0,
)

pub state_eq→eq : (a b : DurableState) → state_eq a b ≡ true → a ≡ b
state_eq→eq a b h =
    ground (arith, marks_eq→eq a.consumed_through b.consumed_through, skip_eq→eq a.skip b.skip)

pub settle_skip_marks :
    (d : DurableState) (today now : ℤ) (es : List Event)
    → (settle_skip d today now es).consumed_through ≡ d.consumed_through
unfolding settle_skip
settle_skip_marks d today now es = elim (Option-cases d.skip) [
  | inl h ↦ ground arith
  | inr (k, h) ↦ ground arith
]

-- What one call does to the state in memory, to `storage_ok_` and to the medium: nothing, a write
-- of a state whose watermarks are no lower, or a failed write that blocks the scheduler.
pub data Change {S : Type 0} (store : Store S DurableState) (c : Scheduler) (s : S) (c' : Scheduler)
    (s' : S) : Type 0 where
  idle :
      c'.state ≡ c.state
      → s' ≡ s
      → (c'.storage_ok ≡ c.storage_ok) ⊎ (c'.storage_ok ≡ false)
      → Change store c s c' s'
  wrote :
      c.storage_ok ≡ true
      → LeMarks c.state.consumed_through c'.state.consumed_through
      → c'.storage_ok ≡ true
      → (store.save c'.state s).0 ≡ true
      → s' ≡ (store.save c'.state s).1
      → Change store c s c' s'
  failed :
      (candidate : DurableState)
      → c.storage_ok ≡ true
      → LeMarks c.state.consumed_through candidate.consumed_through
      → c'.storage_ok ≡ false
      → c'.state ≡ c.state
      → (store.save candidate s).0 ≡ false
      → s' ≡ (store.save candidate s).1
      → Change store c s c' s'

-- The members that `Change` reads.
pub record SameStorage (a b : Scheduler) : Type 0 where
  pub same_state : a.state ≡ b.state
  pub same_ok : a.storage_ok ≡ b.storage_ok

module _ {S : Type 0} (store : Store S DurableState) where
  pub Change-same :
      (c d : Scheduler) (s : S) (c' d' : Scheduler) (s' : S)
      → SameStorage c d
      → SameStorage c' d'
      → Change store c s c' s'
      → Change store d s d' s'
  Change-same c d s c' d' s' h h' (idle a b e) = idle (ground arith) b (ground arith)
  Change-same c d s c' d' s' h h' (wrote a b e f g) =
      wrote (ground arith) (rw (← h.same_state, ← h'.same_state) b) (ground arith)
        (rw (← h'.same_state) f) (rw (← h'.same_state) g)
  Change-same c d s c' d' s' h h' (failed x a b e f g i) =
      failed x (ground arith) (rw (← h.same_state) b) (ground arith) (ground arith) g i

  pub persist-Change :
      (c : Scheduler) (s : S) (candidate : DurableState)
      → c.storage_ok ≡ true
      → LeMarks c.state.consumed_through candidate.consumed_through
      → Change store c s (persist store c s candidate).1 (persist store c s candidate).2
  unfolding persist
  persist-Change c s candidate ok h = elim (Bool-cases (state_eq candidate c.state)) [
    | inl e ↦ rw (e, persist) (idle refl refl (inl refl))
    | inr e ↦ elim (Bool-cases (store.save candidate s).0) [
      | inl w ↦ rw (e, w, persist) (wrote ok h ok w refl)
      | inr w ↦ rw (e, w, persist) (failed candidate ok h refl refl w refl)
    ]
  ]

  -- After `persist` answers true the candidate is in memory and the rest is as it was.
  pub persist_ok :
      (c : Scheduler) (s : S) (candidate : DurableState)
      → (persist store c s candidate).0 ≡ true
      → (persist store c s candidate).1 ≡ record c { state = candidate }
  unfolding persist
  persist_ok c s candidate h = ground (arith, state_eq→eq candidate c.state)
