-- ===== src/Scheduler/NoRepeat.antt =====
-- No repeated playback: no event is ever played that shares an identity with one played before, over
-- any sequence of calls and restarts.
use openathan.Base.{
  ◌≡◌, ◌≢◌, ◌⊎◌, inl, inr, refl, sym, ◌∙◌, subst, true, false, Option, none, some, List, [], ◌∷◌,
  All, Bool-cases, Option-cases, arith, ℤ, not, ◌||◌, is_some,
}
use openathan.Playback.{Playback}
use openathan.Storage.{LoadResult, Store, IsDurable, IsAtomic}
use openathan.Scheduler.{
  PerPrayer, EventKey, Event, ClockSample, DayCalculator, DurableState, initial_state, Scheduler,
  Settings,
}
use openathan.Scheduler.Consume.{handled, consumed}
use openathan.Scheduler.Valid.{valid_settings}
use openathan.Scheduler.Machine.{
  constructed, configure, block_storage, allow_playback, begin, skip_chosen, skip_rest, skip_from,
  load_ok, with_loaded, selected, cancel_skip, tick, skip_next,
}
use openathan.Scheduler.Marks.{LeMarks-refl, Covers}
use openathan.Scheduler.Tick.{Change, idle, persist-Change, SameStorage}
use openathan.Scheduler.System.{
  System, Names, Apart, AllApart, add_request, booted, Step, ticks, skips, cancels, configures,
  blocks, allows, changes, restarts, loses_power, Runs, start, step,
}
use openathan.Scheduler.Once.{Plays, tick-Change, tick-Plays}
use openathan.Scheduler.Guards.{Guards, in_memory, Change-Guards}

abbrev New : Option Event → List Event → Type 0
New none es = Unit
New (some e) es = All (λ d. Apart d e) es

handled-Names :
    (m : PerPrayer ℤ) (d : Event) (k : EventKey) → Covers m d → Names d k → handled m k ≡ true
handled-Names m d k c (inl own) = subst (λ j. handled m j ≡ true) own c.own
handled-Names m d k c (inr other) = c.other k other

unhandled-Names :
    (m : PerPrayer ℤ) (e : Event) (k : EventKey)
    → consumed e m ≡ false
    → Names e k
    → handled m k ≡ false
unfolding consumed
unhandled-Names m e k h (inl own) = subst (λ j. handled m j ≡ false) own (ground arith)
unhandled-Names m e k h (inr other) = ground arith

Covers-Apart : (m : PerPrayer ℤ) (d e : Event) → Covers m d → consumed e m ≡ false → Apart d e
Covers-Apart m d e c h k nd ne =
    let clash : true ≡ false = sym (handled-Names m d k c nd) ∙ unhandled-Names m e k h ne in cc

All-Apart :
    (m : PerPrayer ℤ) (e : Event) (es : List Event)
    → consumed e m ≡ false
    → All (Covers m) es
    → All (λ d. Apart d e) es
All-Apart m e [] h all = tt
All-Apart m e (d ∷ es) h all = (Covers-Apart m d e all.0 h, All-Apart m e es h all.1)

configure_same : (c : Scheduler) (settings : Settings) → SameStorage c (configure c settings).1
unfolding configure
configure_same c settings = elim (Bool-cases (not (valid_settings settings))) [
  | inl bad ↦ rw (bad, configure) (ground arith)
  | inr good ↦ rw (good, configure) (ground arith)
]

load_ok-ne-error : (r : LoadResult) → load_ok r ≡ true → r ≢ LoadResult.error
unfolding load_ok
load_ok-ne-error r h e = ground arith

module _ {S : Type 0} (store : Store S DurableState) where
  Guards-played :
      (es : List Event) (c : Scheduler) (s : S) (now : ClockSample) (e : Event) (c' : Scheduler)
      → Plays c now e c'
      → Guards store es c' s
      → Guards store (e ∷ es) c' s
  Guards-played es c s now e c' p g = record {
    durable_part = inr (
        subst (λ (d : DurableState). All (Covers d.consumed_through) (e ∷ es))
          (sym (g.in_step p.stored).0) (p.covered, in_memory store es c' s g p.stored));
    in_step = g.in_step;
  }

  begin-Guards :
      (es : List Event) (c : Scheduler) (s : S) (settings : Settings)
      → ((store.load initial_state s).0 ≡ LoadResult.error)
        ⊎ All (Covers (store.load initial_state s).1.consumed_through) es
      → Guards store es (begin store c s settings).1 s
  unfolding begin with_loaded
  begin-Guards es c s settings h = record {
    durable_part = h;
    in_step = λ ok.
        let found = store.load initial_state s in
        let same = configure_same (with_loaded c found.0 found.1) settings in
        (same.same_state, load_ok-ne-error found.0 (same.same_ok ∙ ok));
  }

  skip_chosen-Change :
      (c : Scheduler) (s : S) (expected : Option Event) (e : Event)
      → c.storage_ok ≡ true
      → Change store c s (skip_chosen store c s expected e).1 (skip_chosen store c s expected e).2
  unfolding skip_chosen
  skip_chosen-Change c s expected e ok = elim (Bool-cases (not (selected e expected))) [
    | inl other ↦ rw (other, skip_chosen) (idle refl refl (inl refl))
    | inr this ↦ elim (Bool-cases (is_some c.state.skip)) [
      | inl old ↦ rw (this, old, skip_chosen) (idle refl refl (inl refl))
      | inr new ↦
          rw (this, new, skip_chosen)
            (persist-Change store c s (record (c.state) { skip = some e.key }) ok
              (LeMarks-refl c.state.consumed_through))
    ]
  ]

  skip_from-Change :
      (c : Scheduler) (s : S) (expected o : Option Event)
      → c.storage_ok ≡ true
      → Change store c s (skip_from store c s expected o).1 (skip_from store c s expected o).2
  unfolding skip_from
  skip_from-Change c s expected none ok = idle refl refl (inl refl)
  skip_from-Change c s expected (some e) ok = skip_chosen-Change c s expected e ok

  skip_rest-Change :
      (c : Scheduler) (s : S) (expected : Option Event)
      → Change store c s (skip_rest store c s expected).1 (skip_rest store c s expected).2
  unfolding skip_rest
  skip_rest-Change c s expected = elim (Bool-cases (not c.storage_ok || not c.armed)) [
    | inl off ↦ rw (off, skip_rest) (idle refl refl (inl refl))
    | inr on ↦ rw (on, skip_rest) (skip_from-Change c s expected c.next (ground arith))
  ]

  cancel_skip-Change :
      (c : Scheduler) (s : S) → Change store c s (cancel_skip store c s).1 (cancel_skip store c s).2
  unfolding cancel_skip
  cancel_skip-Change c s = elim (Bool-cases (not c.storage_ok)) [
    | inl off ↦ rw (off, cancel_skip) (idle refl refl (inl refl))
    | inr on ↦
        rw (on, cancel_skip)
          (persist-Change store c s (record (c.state) { skip = none }) (ground arith)
            (LeMarks-refl c.state.consumed_through))
  ]

module _ {S P : Type 0} (store : Store S DurableState) (playback : Playback P)
    (calculate : DayCalculator) (durable : IsDurable store) (atomic : IsAtomic store) where
  tick-Guards :
      (es : List Event) (c : Scheduler) (s : S) (p : P) (now : ClockSample)
      → Guards store es c s
      → Guards store
          (add_request (tick store playback calculate c s p now).3 es)
          (tick store playback calculate c s p now).0
          (tick store playback calculate c s p now).1
        × New (tick store playback calculate c s p now).3 es
  tick-Guards es c s p now g =
      let kept =
        Change-Guards store es c s _ _ durable atomic
          (tick-Change store playback calculate c s p now) g in
      elim (Option-cases (tick store playback calculate c s p now).3) [
        | inl silent ↦ rw silent (kept, tt)
        | inr (e, heard) ↦
            let r = tick-Plays store playback calculate c s p now e heard in
            rw heard (
              Guards-played store es c _ now e _ r.0 kept,
              All-Apart c.state.consumed_through e es r.0.unhandled (in_memory store es c s g r.3),
            )
      ]

  Step-Guards :
      (es : List Event) {x y : System S P} {o : Option Event}
      → Step store playback calculate x o y
      → Guards store es x.scheduler x.medium
      → Guards store (add_request o es) y.scheduler y.medium × New o es
  unfolding booted skip_next block_storage allow_playback
  Step-Guards es {x} (ticks now) g = tick-Guards es x.scheduler x.medium x.backend now g
  Step-Guards es {x} (skips now expected) g =
      let r = tick-Guards es x.scheduler x.medium x.backend now g in
      (Change-Guards store _ _ _ _ _ durable atomic (skip_rest-Change store _ _ expected) r.0, r.1)
  Step-Guards es {x} cancels g =
      (Change-Guards store es _ _ _ _ durable atomic (cancel_skip-Change store _ _) g, tt)
  Step-Guards es {x} (configures settings) g =
      let same = configure_same x.scheduler settings in
      (
        Change-Guards store es x.scheduler x.medium _ _ durable atomic
            (idle (sym same.same_state) refl (inl (sym same.same_ok))) g,
        tt,
      )
  Step-Guards es {x} blocks g = (
    Change-Guards store es x.scheduler x.medium _ _ durable atomic (idle refl refl (inr refl)) g,
    tt,
  )
  Step-Guards es {x} (allows allowed) g = (
    Change-Guards store es x.scheduler x.medium _ _ durable atomic (idle refl refl (inl refl)) g,
    tt,
  )
  Step-Guards es (changes p) g = (g, tt)
  Step-Guards es {x} (restarts p settings) g =
      (begin-Guards store es constructed x.medium settings g.durable_part, tt)
  Step-Guards es {x} (loses_power now p settings) g =
      let kept =
        Change-Guards store es _ _ _ _ durable atomic
          (tick-Change store playback calculate x.scheduler x.medium x.backend now) g in
      (begin-Guards store es constructed _ settings kept.durable_part, tt)

  Runs-Guards :
      {x y : System S P} {es : List Event}
      → Runs store playback calculate x es y
      → Guards store [] x.scheduler x.medium
      → Guards store es y.scheduler y.medium × AllApart es
  Runs-Guards start g = (g, tt)
  Runs-Guards (step {es = es} {o = none} run s) g =
      let r = Runs-Guards run g in ((Step-Guards es s r.0).0, r.1)
  Runs-Guards (step {es = es} {o = some e} run s) g =
      let r = Runs-Guards run g in let q = Step-Guards es s r.0 in (q.0, (q.1, r.1))

  -- For a device that starts from any medium with any settings, over any sequence of ticks, skips,
  -- cancelled skips, reconfigurations, storage blocks, playback permissions, backend changes,
  -- restarts and losses of power between the write and the start of playback, and for a store whose
  -- writes are durable and atomic: no two of the events for which playback was started share an
  -- identity.
  pub Runs-AllApart :
      (s : S) (p : P) (settings : Settings) {y : System S P} {es : List Event}
      → Runs store playback calculate (booted store playback calculate s p settings) es y
      → AllApart es
  unfolding booted
  Runs-AllApart s p settings run =
      (Runs-Guards run (begin-Guards store [] constructed s settings (inr tt))).1
