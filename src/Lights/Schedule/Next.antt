-- ===== src/Lights/Schedule/Next.antt =====
-- The next time and the next event of a light schedule.
use openathan.Base.{
  ℕ, suc, ◌+◌, ◌≡◌, refl, ap, ◌∙◌, subst, ℤ, ◌<ℤ◌, Bool, true, false, not, ◌||◌, Option, none, some,
  List, [], ◌∷◌, ◌⊎◌, inl, inr, ltb_ℤ, leb_ℤ, ◌==◌, get_or, length, All, arith, if◌then◌else◌,
}
use mathlib.Core.Option
use mathlib.Core.List.{Memᴰ}
use openathan.Scheduler.{Event}
use openathan.Lights.Schedule.{LightSchedule, next, next_event, earliest, earliest_at, event_of}

abbrev pub at_most : Option ℤ → ℤ → Bool
at_most none u = false
at_most (some v) u = leb_ℤ v u

-- A time that is not after `utc`, or not before the result.
abbrev pub respects : ℤ → Option ℤ → Option ℤ → Bool
respects utc result none = true
respects utc result (some u) = not (ltb_ℤ utc u) || at_most result u

-- What the next time after `utc` is: one of the times, after `utc`, and no time after `utc` is
-- earlier; or none, and then no time is after `utc`.
pub data IsNext (utc : ℤ) (ts : List (Option ℤ)) : Option ℤ → Type 0 where
  never : All (λ o. respects utc none o ≡ true) ts → IsNext utc ts none
  soonest :
      (t : ℤ)
      → Memᴰ (some t) ts
      → utc <ℤ t
      → All (λ o. respects utc (some t) o ≡ true) ts
      → IsNext utc ts (some t)

earliest-at_most :
    (ts : List (Option ℤ)) (utc : ℤ) (r : Option ℤ) (u : ℤ)
    → at_most r u ≡ true
    → at_most (earliest utc r ts) u ≡ true
unfolding earliest
earliest-at_most [] utc r u h = h
earliest-at_most (none ∷ ts) utc r u h = earliest-at_most ts utc r u h
earliest-at_most (some t ∷ ts) utc none u h = cc
earliest-at_most (some t ∷ ts) utc (some v) u h = earliest-at_most ts utc _ u (ground arith)

earliest-respects :
    (ts : List (Option ℤ)) (utc : ℤ) (r : Option ℤ)
    → All (λ o. respects utc (earliest utc r ts) o ≡ true) ts
unfolding earliest
earliest-respects [] utc r = _
earliest-respects (none ∷ ts) utc r = (refl, earliest-respects ts utc r)
earliest-respects (some t ∷ ts) utc none =
    (ground (arith, earliest-at_most ts utc (some t) t), earliest-respects ts utc _)
earliest-respects (some t ∷ ts) utc (some v) = (
  ground (arith, earliest-at_most ts utc (some v) t, earliest-at_most ts utc (some t) t),
  earliest-respects ts utc _,
)

abbrev Found : ℤ → List (Option ℤ) → ℤ → Type 0
Found utc ts t = Memᴰ (some t) ts × (utc <ℤ t)

Found-cons :
    (utc : ℤ) (o : Option ℤ) (ts : List (Option ℤ)) (t : ℤ) → Found utc ts t → Found utc (o ∷ ts) t
Found-cons utc o ts t h = (Memᴰ.tail h.0, h.1)

Found-head : (utc : ℤ) (ts : List (Option ℤ)) (t : ℤ) → utc <ℤ t → Found utc (some t ∷ ts) t
Found-head utc ts t h = (Memᴰ.head refl, h)

-- Where the loop's result comes from.
earliest-Found :
    (ts : List (Option ℤ)) (utc : ℤ) (r : Option ℤ) (t : ℤ)
    → earliest utc r ts ≡ some t
    → (r ≡ some t) ⊎ Found utc ts t
unfolding earliest
earliest-Found [] utc r t h = inl h
earliest-Found (none ∷ ts) utc r t h = elim (earliest-Found ts utc r t h) [
  | inl e ↦ inl e
  | inr f ↦ inr (Found-cons utc none ts t f)
]
earliest-Found (some u ∷ ts) utc r t h = elim (earliest-Found ts utc _ t h) [
  | inl e ↦ ground (arith, Found-head utc ts u)
  | inr f ↦ inr (Found-cons utc (some u) ts t f)
]

earliest-IsNext :
    (utc : ℤ) (ts : List (Option ℤ)) (result : Option ℤ)
    → earliest utc none ts ≡ result
    → IsNext utc ts result
earliest-IsNext utc ts none e =
    never (subst (λ r. All (λ o. respects utc r o ≡ true) ts) e (earliest-respects ts utc none))
earliest-IsNext utc ts (some t) e = elim (earliest-Found ts utc none t e) [
  | inl absurd ↦ cc
  | inr f ↦
      soonest t f.0 f.1
        (subst (λ r. All (λ o. respects utc r o ≡ true) ts) e (earliest-respects ts utc none))
]

-- The next time is the earliest of the schedule's times after the given moment, or none if no time
-- is after it.
pub next-IsNext : (s : LightSchedule) (utc : ℤ) → IsNext utc s.times (next s utc)
unfolding next
next-IsNext s utc = earliest-IsNext utc s.times _ refl

abbrev cell : List (Option ℤ) → ℕ → Option ℤ
cell ts n = if n == 15 then none else get_or ts n none

earliest_at-earliest :
    (rest : List (Option ℤ)) (ts : List (Option ℤ)) (utc : ℤ) (n i : ℕ)
    → i + length rest ≡ 15
    → ((j : ℕ) → get_or rest j none ≡ get_or ts (i + j) none)
    → cell ts (earliest_at ts utc n i rest) ≡ earliest utc (cell ts n) rest
unfolding earliest_at earliest
earliest_at-earliest [] ts utc n i h same = refl
earliest_at-earliest (none ∷ rest) ts utc n i h same =
    earliest_at-earliest rest ts utc n (i + 1) (omega arith) (λ j. grind (arith, same (suc j)))
earliest_at-earliest (some t ∷ rest) ts utc n i h same =
    earliest_at-earliest rest ts utc _ (i + 1) (omega arith) (λ j. grind (arith, same (suc j)))
    ∙ ap (λ r. earliest utc r rest) (ground (arith, same 0))

event_of_utc :
    (s : LightSchedule) (n : ℕ) (o : Option ℤ) → Option.map Event.utc (event_of s n o) ≡ o
unfolding event_of
event_of_utc s n none = refl
event_of_utc s n (some t) = ground arith

-- For a schedule of fifteen times, the next event is at the next time, and there is one exactly
-- where there is a next time.
pub next_event-next :
    (s : LightSchedule) (utc : ℤ)
    → length s.times ≡ 15
    → Option.map Event.utc (next_event s utc) ≡ next s utc
unfolding next_event next
next_event-next s utc h = ground (
  arith,
  event_of_utc s (earliest_at s.times utc 15 0 s.times)
      (get_or s.times (earliest_at s.times utc 15 0 s.times) none),
  earliest_at-earliest s.times s.times utc 15 0 (omega arith)
      (λ j. ap (λ (k : ℕ). get_or s.times k none) (omega arith)),
)
