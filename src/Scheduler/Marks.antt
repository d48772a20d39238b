-- ===== src/Scheduler/Marks.antt =====
-- The watermarks under `consume` and under the loop of `tick`: they only rise, and an event that
-- the loop leaves as due was not consumed before it and is consumed, under both of its identities,
-- after it.
use openathan.Base.{
  ◌≡◌, ◌⊎◌, inl, inr, ℤ, ◌≤ℤ◌, ltb_ℤ, Bool, true, false, Option, none, some, List, [], ◌∷◌,
  Bool-cases, Option-cases, subst, sym, arith,
}
use openathan.Scheduler.{
  Prayer, fajr, dhuhr, asr, maghrib, isha, PerPrayer, EventKey, Event, ClockSample,
}
use mathlib.Core.Option.{some-injective}
use openathan.Scheduler.Consume.{
  consume_shared, handled, consumed, consume_key, consume, past_marks, past_due, is_due,
  consume_past,
}
use openathan.Scheduler.Machine.{raise_all}

pub record LeMarks (a b : PerPrayer ℤ) : Type 0 where
  pub le_fajr : a.of_fajr ≤ℤ b.of_fajr
  pub le_dhuhr : a.of_dhuhr ≤ℤ b.of_dhuhr
  pub le_asr : a.of_asr ≤ℤ b.of_asr
  pub le_maghrib : a.of_maghrib ≤ℤ b.of_maghrib
  pub le_isha : a.of_isha ≤ℤ b.of_isha

pub LeMarks-refl : (a : PerPrayer ℤ) → LeMarks a a
LeMarks-refl a = omega arith

pub LeMarks-trans : (a b c : PerPrayer ℤ) → LeMarks a b → LeMarks b c → LeMarks a c
LeMarks-trans a b c h k = omega arith

-- What the lower watermarks handle, the higher ones handle.
pub handled_mono :
    (a b : PerPrayer ℤ) (day : ℤ) (p : Prayer)
    → LeMarks a b
    → handled a (record { day = day; prayer = p }) ≡ true
    → handled b (record { day = day; prayer = p }) ≡ true
handled_mono a b day fajr h k = ground arith
handled_mono a b day dhuhr h k = ground arith
handled_mono a b day asr h k = ground arith
handled_mono a b day maghrib h k = ground arith
handled_mono a b day isha h k = ground arith

consume_key_le :
    (marks : PerPrayer ℤ) (day : ℤ) (p : Prayer)
    → LeMarks marks (consume_key (record { day = day; prayer = p }) marks)
consume_key_le marks day fajr = ground arith
consume_key_le marks day dhuhr = ground arith
consume_key_le marks day asr = ground arith
consume_key_le marks day maghrib = ground arith
consume_key_le marks day isha = ground arith

handled-consume_key :
    (marks : PerPrayer ℤ) (day : ℤ) (p : Prayer)
    → handled
        (consume_key (record { day = day; prayer = p }) marks)
        (record { day = day; prayer = p })
      ≡ true
handled-consume_key marks day fajr = ground arith
handled-consume_key marks day dhuhr = ground arith
handled-consume_key marks day asr = ground arith
handled-consume_key marks day maghrib = ground arith
handled-consume_key marks day isha = ground arith

-- Both identities of an event are handled.
pub record Covers (marks : PerPrayer ℤ) (e : Event) : Type 0 where
  pub own : handled marks e.key ≡ true
  pub other : (k : EventKey) → e.shared_with ≡ some k → handled marks k ≡ true

pub Covers-mono : (a b : PerPrayer ℤ) (e : Event) → LeMarks a b → Covers a e → Covers b e
Covers-mono a b e h c = record {
  own = handled_mono a b e.key.day e.key.prayer h c.own;
  other = λ k s. handled_mono a b k.day k.prayer h (c.other k s);
}

consume_shared_le :
    (marks : PerPrayer ℤ) (o : Option EventKey) → LeMarks marks (consume_shared o marks)
consume_shared_le marks none = LeMarks-refl marks
consume_shared_le marks (some k) = consume_key_le marks k.day k.prayer

pub consume_le : (marks : PerPrayer ℤ) (e : Event) → LeMarks marks (consume e marks)
unfolding consume
consume_le marks e =
    LeMarks-trans marks (consume_key e.key marks) _ (consume_key_le marks e.key.day e.key.prayer)
      (consume_shared_le (consume_key e.key marks) e.shared_with)

handled-consume_shared :
    (marks : PerPrayer ℤ) (o : Option EventKey) (k : EventKey)
    → o ≡ some k
    → handled (consume_shared o marks) k ≡ true
handled-consume_shared marks none k h = cc
handled-consume_shared marks (some j) k h =
    subst (λ x. handled (consume_key j marks) x ≡ true) (some-injective _ _ h)
      (handled-consume_key marks j.day j.prayer)

pub consume-Covers : (marks : PerPrayer ℤ) (e : Event) → Covers (consume e marks) e
unfolding consume
consume-Covers marks e = record {
  own =
      handled_mono (consume_key e.key marks) _ e.key.day e.key.prayer
        (consume_shared_le (consume_key e.key marks) e.shared_with)
        (handled-consume_key marks e.key.day e.key.prayer);
  other = handled-consume_shared (consume_key e.key marks) e.shared_with;
}

-- Nothing of an event is handled: neither of its identities.
pub consumed_mono :
    (a b : PerPrayer ℤ) (e : Event) → LeMarks a b → consumed e b ≡ false → consumed e a ≡ false
unfolding consumed
consumed_mono a b e h k = elim (Option-cases e.shared_with) [
  | inl s ↦ ground (arith, handled_mono a b e.key.day e.key.prayer h)
  | inr (j, s) ↦
      ground (arith, handled_mono a b e.key.day e.key.prayer h, handled_mono a b j.day j.prayer h)
]

pub raise_all_le : (marks : PerPrayer ℤ) (today : ℤ) → LeMarks marks (raise_all marks today)
raise_all_le marks today = ground arith

pub past_marks_le :
    (now : ClockSample) (e : Event) (marks : PerPrayer ℤ) → LeMarks marks (past_marks now e marks)
unfolding past_marks
past_marks_le now e marks = elim (Bool-cases (ltb_ℤ now.utc e.utc)) [
  | inl later ↦ rw (later, past_marks) (LeMarks-refl marks)
  | inr past ↦ rw (past, past_marks) (consume_le marks e)
]

past_marks-Covers :
    (now : ClockSample) (e : Event) (marks : PerPrayer ℤ)
    → ltb_ℤ now.utc e.utc ≡ false
    → Covers (past_marks now e marks) e
unfolding past_marks
past_marks-Covers now e marks past = rw (past, past_marks) (consume-Covers marks e)

module _ (now previous : ClockSample) (continuous : Bool) (skip : Option EventKey) where
  abbrev loop : List Event → PerPrayer ℤ → Option Event → PerPrayer ℤ × Option Event
  loop = consume_past now previous continuous skip

  pub consume_past_le :
      (es : List Event) (marks : PerPrayer ℤ) (due : Option Event)
      → LeMarks marks (consume_past now previous continuous skip es marks due).0
  unfolding consume_past
  consume_past_le [] marks due = LeMarks-refl marks
  consume_past_le (e ∷ es) marks due =
      LeMarks-trans marks (past_marks now e marks) _ (past_marks_le now e marks) (
        consume_past_le es (past_marks now e marks)
          (past_due now previous continuous skip e marks due))

  -- A due event: where the loop met it, its condition held, and afterwards it is handled.
  pub record Picked (marks marks' : PerPrayer ℤ) (e : Event) : Type 0 where
    pub met : PerPrayer ℤ
    pub before_le : LeMarks marks met
    pub due : is_due now previous continuous skip met e ≡ true
    pub past : ltb_ℤ now.utc e.utc ≡ false
    pub covered : Covers marks' e

  Picked-earlier : (a b c : PerPrayer ℤ) (e : Event) → LeMarks a b → Picked b c e → Picked a c e
  Picked-earlier a b c e h p = record {
    met = p.met;
    before_le = LeMarks-trans a b p.met h p.before_le;
    due = p.due;
    past = p.past;
    covered = p.covered;
  }

  past_due-eq-some :
      (f : Event) (marks : PerPrayer ℤ) (due : Option Event) (e : Event)
      → past_due now previous continuous skip f marks due ≡ some e
      → (due ≡ some e)
        ⊎ ((f ≡ e)
            × (is_due now previous continuous skip marks e ≡ true)
            × (ltb_ℤ now.utc e.utc ≡ false))
  unfolding past_due
  past_due-eq-some f marks due e h = elim (Bool-cases (ltb_ℤ now.utc f.utc)) [
    | inl later ↦ inl (rw (later, past_due) at h)
    | inr past ↦ elim (Bool-cases (is_due now previous continuous skip marks f)) [
      | inl hit ↦
          let same = some-injective _ _ (rw (past, hit) at h) in
          inr (same, rw (← same) hit, rw (← same) past)
      | inr miss ↦ inl (rw (past, miss) at h)
    ]
  ]

  -- The loop returns the due event that it was given, or one that it picked.
  pub consume_past-Picked :
      (es : List Event) (marks : PerPrayer ℤ) (due : Option Event) (e : Event)
      → (consume_past now previous continuous skip es marks due).1 ≡ some e
      → (due ≡ some e) ⊎ Picked marks (consume_past now previous continuous skip es marks due).0 e
  unfolding consume_past
  consume_past-Picked [] marks due e h = inl h
  consume_past-Picked (f ∷ es) marks due e h =
      let marks1 = past_marks now f marks in
      let due1 = past_due now previous continuous skip f marks due in
      elim (consume_past-Picked es marks1 due1 e h) [
        | inl held ↦ elim (past_due-eq-some f marks due e held) [
          | inl old ↦ inl old
          | inr (same, hit, past) ↦ inr (record {
            met = marks;
            before_le = LeMarks-refl marks;
            due = hit;
            past = past;
            covered = Covers-mono marks1 _ e (consume_past_le es marks1 due1) (
                subst (λ x. Covers (past_marks now x marks) e) (sym same)
                  (past_marks-Covers now e marks past));
          })
        ]
        | inr p ↦ inr (Picked-earlier marks marks1 _ e (past_marks_le now f marks) p)
      ]
