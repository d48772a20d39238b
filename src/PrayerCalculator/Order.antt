-- ===== src/PrayerCalculator/Order.antt =====
-- The days that the calculator accepts, and the requests that it does not refuse.
use openathan.Base.{
  ℕ, zero, suc, ◌<◌, ◌≡◌, refl, subst, ℤ, ◌<ℤ◌, Bool, true, false, Option, none, some, List, [],
  ◌∷◌, get_or, arith, if◌then◌else◌,
}
use openathan.Calendar.{CivilDate, valid_date}
use openathan.Scheduler.{Settings, PrayerDay, times_of}
use openathan.Scheduler.Valid.{valid_settings, offsets_valid}
use openathan.PrayerCalculator.{
  Adhan, PrayerRequest, in_order, accept_day, calculate_allowed, calculate_prayers,
  adhan_calculator, request_of, request_refused, offsets_allowed, day_of,
}

in_order-after :
    (ts : List (Option ℤ)) (p : ℤ) (j : ℕ) (u : ℤ)
    → in_order (some p) ts ≡ true
    → get_or ts j none ≡ some u
    → p <ℤ u
unfolding in_order
in_order-after [] p j u h e = cc
in_order-after (none ∷ ts) p zero u h e = cc
in_order-after (none ∷ ts) p (suc j) u h e = in_order-after ts p j u h e
in_order-after (some t ∷ ts) p zero u h e = ground (arith, e)
in_order-after (some t ∷ ts) p (suc j) u h e =
    ground (arith, in_order-after ts t j u (ground arith) e)

in_order-from :
    (ts : List (Option ℤ)) (previous : Option ℤ)
    → in_order previous ts ≡ true
    → in_order none ts ≡ true
unfolding in_order
in_order-from [] previous h = refl
in_order-from (none ∷ ts) previous h = in_order-from ts previous h
in_order-from (some t ∷ ts) none h = h
in_order-from (some t ∷ ts) (some p) h = ground (arith, h)

in_order-lt :
    (ts : List (Option ℤ)) (i j : ℕ) (t u : ℤ)
    → in_order none ts ≡ true
    → i < j
    → get_or ts i none ≡ some t
    → get_or ts j none ≡ some u
    → t <ℤ u
unfolding in_order
in_order-lt [] i j t u h below e f = cc
in_order-lt (o ∷ ts) i zero t u h below e f = omega arith
in_order-lt (none ∷ ts) zero (suc j) t u h below e f = cc
in_order-lt (some v ∷ ts) zero (suc j) t u h below e f = ground (arith, in_order-after ts v j u h f)
in_order-lt (none ∷ ts) (suc i) (suc j) t u h below e f = in_order-lt ts i j t u h (omega arith) e f
in_order-lt (some v ∷ ts) (suc i) (suc j) t u h below e f =
    in_order-lt ts i j t u (in_order-from ts (some v) h) (omega arith) e f

worth-in_order :
    (ok : Bool) (d e : PrayerDay)
    → (if ok then some d else none) ≡ some e
    → in_order none (times_of d) ≡ ok
    → in_order none (times_of e) ≡ true
worth-in_order true d e h f =
    let same : d ≡ e = cc in subst (λ (x : PrayerDay). in_order none (times_of x) ≡ true) same f
worth-in_order false d e h f = cc

pub offsets_valid-allowed :
    (os : List ℤ) (valid : Bool)
    → offsets_valid valid os ≡ true
    → (valid ≡ true) × (offsets_allowed os ≡ true)
unfolding offsets_valid offsets_allowed
offsets_valid-allowed [] valid h = (h, refl)
offsets_valid-allowed (o ∷ os) valid h = ground (arith, offsets_valid-allowed os _ h)

not_refused :
    (r : PrayerRequest) (s : Settings)
    → r.latitude ≡ s.latitude
    → r.longitude ≡ s.longitude
    → r.method ≡ s.method
    → r.high_latitude ≡ s.high_latitude
    → r.offsets ≡ s.offsets
    → valid_settings s ≡ true
    → valid_date r.date ≡ true
    → request_refused r ≡ false
unfolding request_refused valid_settings
not_refused r s lat long method rule offsets valid date_valid =
    ground (arith, offsets_valid-allowed s.offsets _ valid)

module _ {Instant : Type 0} (adhan : Adhan Instant) where
  accept_day-in_order :
      (d e : PrayerDay) → accept_day adhan d ≡ some e → in_order none (times_of e) ≡ true
  unfolding accept_day
  accept_day-in_order d e h = worth-in_order (in_order none (times_of d)) d e h refl

  answer-in_order :
      (refused : Bool) (o : Option (List (Option Instant))) (d : PrayerDay)
      → (if refused
          then none
          else elim o [ none ↦ none | some times ↦ accept_day adhan (day_of adhan times) ])
        ≡ some d
      → in_order none (times_of d) ≡ true
  answer-in_order true o d h = cc
  answer-in_order false none d h = cc
  answer-in_order false (some times) d h = accept_day-in_order (day_of adhan times) d h

  calculated-in_order :
      (r : PrayerRequest) (d : PrayerDay)
      → calculate_prayers adhan r ≡ some d
      → in_order none (times_of d) ≡ true
  unfolding calculate_prayers calculate_allowed
  calculated-in_order r d h = answer-in_order (request_refused r) _ d h

  -- Of a day that the calculator returns, whatever adhan-cpp computes, any two times that are
  -- present are in strictly increasing order.
  pub calculate_prayers-lt :
      (r : PrayerRequest) (d : PrayerDay) (i j : ℕ) (t u : ℤ)
      → calculate_prayers adhan r ≡ some d
      → i < j
      → get_or (times_of d) i none ≡ some t
      → get_or (times_of d) j none ≡ some u
      → t <ℤ u
  calculate_prayers-lt r d i j t u h below e f =
      in_order-lt (times_of d) i j t u (calculated-in_order r d h) below e f

  -- With valid settings and a valid date no test refuses the scheduler's request: the calculator's
  -- answer is what adhan-cpp's times are worth.
  pub adhan_calculator-valid :
      (s : Settings) (d : CivilDate)
      → valid_settings s ≡ true
      → valid_date d ≡ true
      → adhan_calculator adhan s d ≡ calculate_allowed adhan (request_of adhan s d)
  unfolding adhan_calculator calculate_prayers
  adhan_calculator-valid s d valid date_valid =
      rw (not_refused (request_of adhan s d) s refl refl refl refl refl valid date_valid) refl
