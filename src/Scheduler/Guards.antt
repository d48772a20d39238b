-- ===== src/Scheduler/Guards.antt =====
-- No repeated playback: what was played stays handled in memory and on the medium, over every call
-- and every restart, so no event is played that shares an identity with one played before.
use openathan.Base.{
  ◌≡◌, ◌≢◌, ◌⊎◌, inl, inr, sym, ◌∙◌, ap, subst, true, List, [], ◌∷◌, All, arith, ℤ,
}
use openathan.Storage.{LoadResult, Store, IsDurable, IsAtomic}
use openathan.Scheduler.{PerPrayer, Event, DurableState, initial_state, Scheduler}
use openathan.Scheduler.Marks.{LeMarks, Covers, Covers-mono}
use openathan.Scheduler.Tick.{Change, idle, wrote, failed}

-- The medium, if it loads, handles what was played; a scheduler with working storage holds in
-- memory what the medium holds.
pub record Guards {S : Type 0} (store : Store S DurableState) (es : List Event) (c : Scheduler)
    (s : S) : Type 0 where
  pub durable_part :
      ((store.load initial_state s).0 ≡ LoadResult.error)
      ⊎ All (Covers (store.load initial_state s).1.consumed_through) es
  pub in_step :
      c.storage_ok ≡ true
      → ((store.load initial_state s).1 ≡ c.state)
        × ((store.load initial_state s).0 ≢ LoadResult.error)

All-mono :
    (a b : PerPrayer ℤ) (es : List Event) → LeMarks a b → All (Covers a) es → All (Covers b) es
All-mono a b [] h all = tt
All-mono a b (e ∷ es) h all = (Covers-mono a b e h all.0, All-mono a b es h all.1)

module _ {S : Type 0} (store : Store S DurableState) where
  -- What is played is handled by the state in memory.
  pub in_memory :
      (es : List Event) (c : Scheduler) (s : S)
      → Guards store es c s
      → c.storage_ok ≡ true
      → All (Covers c.state.consumed_through) es
  in_memory es c s g ok = elim g.durable_part [
    | inl bad ↦ absurd ((g.in_step ok).1 bad)
    | inr all ↦
        subst (λ (d : DurableState). All (Covers d.consumed_through) es) (g.in_step ok).0 all
  ]

  -- Memory and medium after a successful write of the state in memory.
  Guards-saved :
      (es : List Event) (c : Scheduler) (t : S)
      → store.load initial_state t ≡ (LoadResult.loaded, c.state)
      → All (Covers c.state.consumed_through) es
      → Guards store es c t
  Guards-saved es c t found all = record {
    durable_part = inr (
        subst (λ (r : LoadResult × DurableState). All (Covers r.1.consumed_through) es) (sym found)
          all);
    in_step =
        λ h. (ap (λ r. r.1) found, λ bad. cc (ap (λ (r : LoadResult × DurableState). r.0) found));
  }

  pub Change-Guards :
      (es : List Event) (c : Scheduler) (s : S) (c' : Scheduler) (s' : S)
      → IsDurable store
      → IsAtomic store
      → Change store c s c' s'
      → Guards store es c s
      → Guards store es c' s'
  Change-Guards es c s c' s' durable atomic (idle same there ok) g =
      subst (Guards store es c') (sym there) (record {
        durable_part = g.durable_part;
        in_step = λ h. let r = g.in_step (ground arith) in (r.0 ∙ sym same, r.1);
      })
  Change-Guards es c s c' s' durable atomic (wrote was h ok saved there) g =
      subst (Guards store es c') (sym there) (
        Guards-saved es c' _ (durable c'.state initial_state s saved)
          (All-mono _ _ es h (in_memory es c s g was)))
  Change-Guards es c s c' s' durable atomic (failed d was h off same lost there) g =
      subst (Guards store es c') (sym there) (record {
        durable_part = elim (atomic d initial_state s lost) [
          | inl old ↦ inr (
              subst (λ (r : LoadResult × DurableState). All (Covers r.1.consumed_through) es)
                (sym old)
                (subst (λ (r : DurableState). All (Covers r.consumed_through) es)
                  (sym (g.in_step was).0) (in_memory es c s g was)))
          | inr (inl new) ↦ inr (
              subst (λ (r : LoadResult × DurableState). All (Covers r.1.consumed_through) es)
                (sym new) (All-mono _ _ es h (in_memory es c s g was)))
          | inr (inr bad) ↦ inl bad
        ];
        in_step = λ h. cc;
      })
