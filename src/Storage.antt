-- ===== src/Storage.antt =====
-- The storage interface of the core (`LoadResult` of lib/openathan-core/include/openathan/scheduler.h
-- and the `load`/`save` pairs of its store classes), and the two members that every preference
-- service keeps behind it.
pub mod Laws
use openathan.Base.{ℕ, ◌≡◌, ◌⊎◌, Bool, true, false, Option, none, some}

pub data LoadResult : Type 0 where
  empty loaded error : LoadResult

-- A store over a medium `S`. `load` is given the value of its out-parameter and returns what it
-- leaves there.
pub record Store (S V : Type 0) : Type 0 where
  pub load : V → S → LoadResult × V
  pub save : V → S → Bool × S

-- `save` "must be durable before returning true": a later load finds the value.
abbrev pub IsDurable : {S V : Type 0} → Store S V → Type 0
IsDurable {S} {V} st =
    (v d : V) (s : S) → (st.save v s).0 ≡ true → st.load d (st.save v s).1 ≡ (LoadResult.loaded, v)

-- The same of the values for which it is promised.
abbrev pub IsDurableOn : {S V : Type 0} → (V → Type 0) → Store S V → Type 0
IsDurableOn {S} {V} P st =
    (v d : V) (s : S)
    → P v
    → (st.save v s).0 ≡ true
    → st.load d (st.save v s).1 ≡ (LoadResult.loaded, v)

-- A failed `save` leaves the old contents, the new ones, or something that does not load.
abbrev pub IsAtomic : {S V : Type 0} → Store S V → Type 0
IsAtomic {S} {V} st =
    (v d : V) (s : S)
    → (st.save v s).0 ≡ false
    → (st.load d (st.save v s).1 ≡ st.load d s)
      ⊎ ((st.load d (st.save v s).1 ≡ (LoadResult.loaded, v))
          ⊎ ((st.load d (st.save v s).1).0 ≡ LoadResult.error))

-- `saved_` and `writable_`.
pub record Preferences (V : Type 0) : Type 0 where
  pub saved : Option V
  pub writable : Bool

-- What `begin` resets them to.
abbrev pub unopened : {V : Type 0} → Preferences V
unopened = record { saved = none; writable = false }
