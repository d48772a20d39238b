-- ===== src/Scheduler/Timetable/Complete.antt =====
-- The timetable of `Scheduler::rebuild` has every calculated prayer of the three days.
use openathan.Base.{
  ℕ, zero, suc, ◌≡◌, ◌⊎◌, inl, inr, refl, sym, ap, ◌∙◌, subst, ℤ, ◌≤ℤ◌, ◌≤◌, ◌<◌, ◌+◌, pos, ◌-ℤ◌,
  ◌+ℤ◌, true, false, Option, none, some, List, [], ◌∷◌, arith, ◌>>=◌, if_cases, ◌==◌, ◌||◌, ◌&&◌,
  not, length, +ℤ_parts, -ℤ_parts,
}
use mathlib.Core.Option
use mathlib.Core.List.{Memᴰ}
use mathlib.Core.Option.{some-injective}
use openathan.Calendar.{CivilDate, day_number, civil_date, valid_date}
use openathan.Scheduler.{
  Prayer, time_at, times_of, Event, ScheduleConflict, Settings, PrayerDay, DayCalculator, no_times,
}
use openathan.Scheduler.Rebuild.{timetable, order_days, order_day, Preceding}
use openathan.Scheduler.Timetable.{mapped, Near, Stands, day_at, Memᴰ-sort_events}
use openathan.Scheduler.Timetable.Origins.{Carries, sort_events_from}
use openathan.Scheduler.Timetable.Sound.{some_day_has}
use openathan.Scheduler.Timetable.Days.{has_event}

bound :
    {A B : Type 0} (o : Option A) (f : A → Option B) (b : B)
    → (o >>= f) ≡ some b
    → (a : A) × (o ≡ some a) × (f a ≡ some b)
bound none f b h = absurd (cc h)
bound (some a) f b h = (a, refl, h)

module _ (calculate : DayCalculator) (settings : Settings) (today : ℤ) where
  -- The days from index `d` are the calculated ones; the first and the fifth may be left out.
  abbrev Calculated : ℕ → List PrayerDay → Type 0
  Calculated d [] = Unit
  Calculated d (x ∷ xs) =
      ((calculate settings (civil_date (today -ℤ pos 2 +ℤ pos d)) ≡ some x)
        ⊎ ((d == 0 || d == 4) ≡ true))
      × Calculated (d + 1) xs

  order_days-Calculated :
      (left d : ℕ) (yesterday : PrayerDay) (before : Preceding) (days : List PrayerDay)
      → order_days calculate settings today left d yesterday before ≡ some days
      → Calculated d days × (length days ≡ left)
  unfolding order_days order_day
  order_days-Calculated zero d yesterday before days h =
      let q : [] ≡ days = some-injective _ _ h in
      subst (λ x. Calculated d x × (length x ≡ 0)) q (_, refl)
  order_days-Calculated (suc left) d yesterday before days h =
      let Goal = λ (o : Option (List PrayerDay)).
        o ≡ some days → Calculated d days × (length days ≡ suc left) in
      if_cases Goal (not (valid_date (civil_date (today -ℤ pos 2 +ℤ pos d))) && (d == 0 || d == 4))
        (λ guard h.
          let m = mapped _ _ days h in
          let r = order_days-Calculated left (d + 1) no_times before m.0 m.1 in
          subst (λ x. Calculated d x × (length x ≡ suc left)) m.2
            ((inr (ground (arith, guard)), r.0), ap suc r.1))
        (λ guard h.
          let more : PrayerDay → Preceding → Option (List PrayerDay) = λ times after.
            Option.map (times ∷◌) (order_days calculate settings today left (d + 1) times after) in
          let c =
            bound (calculate settings (civil_date (today -ℤ pos 2 +ℤ pos d)))
              (λ times. order_day yesterday times d (times_of times) 0 true before >>= more times)
              days h in
          let o =
            bound (order_day yesterday c.0 d (times_of c.0) 0 true before) (more c.0) days c.2 in
          let m =
            mapped (c.0 ∷◌) (order_days calculate settings today left (d + 1) c.0 o.0) days o.2 in
          let r = order_days-Calculated left (d + 1) c.0 o.0 m.0 m.1 in
          subst (λ x. Calculated d x × (length x ≡ suc left)) m.2 ((inl c.1, r.0), ap suc r.1))
        h

  -- A middle day of the five is what the calculator says of its date.
  middle_day :
      (i d : ℕ) (days : List PrayerDay) (k : ℕ) (x : PrayerDay)
      → i ≡ d + k
      → Calculated d days
      → k < length days
      → (i == 0 || i == 4) ≡ false
      → calculate settings (civil_date (today -ℤ pos 2 +ℤ pos i)) ≡ some x
      → day_at days k ≡ some x
  middle_day i d [] k x e c l m is = absurd (omega (arith, l))
  middle_day i d (y ∷ ys) zero x e (inl q, c) l m is =
      let same : d ≡ i = omega (arith, e) in
      sym q ∙ ap (λ n. calculate settings (civil_date (today -ℤ pos 2 +ℤ pos n))) same ∙ is
  middle_day i d (y ∷ ys) zero x e (inr g, c) l m is =
      let same : d ≡ i = omega (arith, e) in absurd (ground (arith, g, m, same))
  middle_day i d (y ∷ ys) (suc k) x e c l m is =
      middle_day i (d + 1) ys k x (omega (arith, e)) c.1 (omega (arith, l)) m is

  near_day :
      (k : ℕ)
      → 1 ≤ k
      → k ≤ 3
      → (today -ℤ pos 1 ≤ℤ today -ℤ pos 2 +ℤ pos k) × (today -ℤ pos 2 +ℤ pos k ≤ℤ today +ℤ pos 1)
  near_day k low high = (
    omega (
      arith,
      low,
      -ℤ_parts today (pos 1),
      -ℤ_parts today (pos 2),
      +ℤ_parts (today -ℤ pos 2) (pos k),
    ),
    omega (
      arith,
      high,
      -ℤ_parts today (pos 2),
      +ℤ_parts (today -ℤ pos 2) (pos k),
      +ℤ_parts today (pos 1),
    ),
  )

  -- The converse: a middle day of the list is what the calculator said.
  calculate_middle :
      (i d : ℕ) (days : List PrayerDay) (k : ℕ) (x : PrayerDay)
      → i ≡ d + k
      → Calculated d days
      → (i == 0 || i == 4) ≡ false
      → day_at days k ≡ some x
      → calculate settings (civil_date (today -ℤ pos 2 +ℤ pos i)) ≡ some x
  calculate_middle i d [] k x e c m is = absurd (cc is)
  calculate_middle i d (y ∷ ys) zero x e (inl q, c) m is =
      let same : i ≡ d = omega (arith, e) in
      ap (λ n. calculate settings (civil_date (today -ℤ pos 2 +ℤ pos n))) same ∙ q ∙ is
  calculate_middle i d (y ∷ ys) zero x e (inr g, c) m is =
      let same : d ≡ i = omega (arith, e) in absurd (ground (arith, g, m, same))
  calculate_middle i d (y ∷ ys) (suc k) x e c m is =
      calculate_middle i (d + 1) ys k x (omega (arith, e)) c.1 m is

  index_bounds : (k : ℕ) → Near today (today -ℤ pos 2 +ℤ pos k) → (1 ≤ k) × (k ≤ 3)
  index_bounds k near = (
    omega (
      arith,
      near.0,
      -ℤ_parts today (pos 1),
      -ℤ_parts today (pos 2),
      +ℤ_parts (today -ℤ pos 2) (pos k),
    ),
    omega (
      arith,
      near.1,
      -ℤ_parts today (pos 2),
      +ℤ_parts (today -ℤ pos 2) (pos k),
      +ℤ_parts today (pos 1),
    ),
  )

middle_index : (k : ℕ) → 1 ≤ k → k ≤ 3 → (k == 0 || k == 4) ≡ false
middle_index k low high = ground arith

-- No prayer is lost from the timetable that rebuild makes for a date: whatever time the calculator
-- gives a prayer of the day before, the date itself or the day after (`k` is 1, 2 or 3), an event at
-- exactly that time carries the prayer's identity, as its key or as the identity that it shares.
pub timetable_complete :
    (calculate : DayCalculator) (settings : Settings) (date : CivilDate)
    (built : List Event × List ScheduleConflict) (k : ℕ) (times : PrayerDay) (p : Prayer) (t : ℤ)
    → timetable calculate settings date ≡ some built
    → 1 ≤ k
    → k ≤ 3
    → calculate settings (civil_date (day_number date -ℤ pos 2 +ℤ pos k)) ≡ some times
    → time_at times p ≡ some t
    → Stands built.0 (record { day = day_number date -ℤ pos 2 +ℤ pos k; prayer = p }) t
unfolding timetable
timetable_complete calculate settings date built k times p t made low high is at =
    let today = day_number date in
    let m = mapped _ _ built made in
    let c = order_days-Calculated calculate settings today 5 0 no_times _ m.0 m.1 in
    let inside : k < length m.0 = omega (arith, c.1, high) in
    let here =
      middle_day calculate settings today k 0 m.0 k times (omega arith) c.0 inside
        (middle_index k low high) is in
    let found =
      has_event settings today m.0 (today -ℤ pos 2) none k times p t here at
        (near_day calculate settings today k low high) in
    (
      found.0,
      subst (Memᴰ found.0) (ap (λ (r : List Event × List ScheduleConflict). r.0) m.2)
          (Memᴰ-sort_events found.0 _ found.1),
      found.2,
      found.3,
    )

-- Nothing else is in it: every event of the timetable that rebuild makes for a date is at a time
-- that the calculator gives a prayer of the day before, the date itself or the day after, and
-- carries that prayer's identity, as its key or as the identity that it shares.
pub timetable_sound :
    (calculate : DayCalculator) (settings : Settings) (date : CivilDate)
    (built : List Event × List ScheduleConflict) (e : Event)
    → timetable calculate settings date ≡ some built
    → Memᴰ e built.0
    → (k : ℕ) × (times : PrayerDay) × (p : Prayer) × ((1 ≤ k) × (k ≤ 3))
      × (calculate settings (civil_date (day_number date -ℤ pos 2 +ℤ pos k)) ≡ some times)
      × (time_at times p ≡ some e.utc)
      × Carries e (record { day = day_number date -ℤ pos 2 +ℤ pos k; prayer = p })
unfolding timetable
timetable_sound calculate settings date built e made member =
    let today = day_number date in
    let m = mapped _ _ built made in
    let c = order_days-Calculated calculate settings today 5 0 no_times _ m.0 m.1 in
    let sorted =
      subst (Memᴰ e) (ap (λ (r : List Event × List ScheduleConflict). r.0) (sym m.2)) member in
    let f = some_day_has settings today m.0 (today -ℤ pos 2) e (sort_events_from e _ sorted) in
    let bounds = index_bounds calculate settings today f.0 f.5 in
    let index = middle_index f.0 bounds.0 bounds.1 in
    (
      f.0,
      f.1,
      f.2,
      bounds,
      calculate_middle calculate settings today f.0 0 m.0 f.0 f.1 (omega arith) c.0 index f.3,
      f.4,
      f.6,
    )
