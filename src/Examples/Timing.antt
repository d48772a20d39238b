-- ===== src/Examples/Timing.antt =====
-- A clock chip whose registers are a function of their address and whose counters stand still.
use mathlib.Core.Option.{some-injective}
use openathan.Base.{
  ℕ, zero, suc, ◌+◌, ◌-◌, ◌≤◌, ◌≡◌, ◌⊎◌, refl, sym, ap, pos, ◌+ℤ◌, ◌-ℤ◌, ◌*ℤ◌, true, false, ◌||◌,
  some, List, [], ◌∷◌, length, get_or, ltb, leb, if◌then◌else◌, arith,
}
use openathan.Calendar.{valid_date, day_number}
use openathan.Rtc.{
  I2c, EspClock, EspTime, restored, pending, verified, value_of, decode, restore, save, saveable,
  in_time, program,
}
use openathan.Rtc.RoundTrip.{decode-value_of}
use openathan.Rtc.Interrupted.{KeepsMarker, Trusted, restore-save}

abbrev registers : (ℕ → ℕ) → ℕ → ℕ → List ℕ
registers s a zero = []
registers s a (suc n) = s a ∷ registers s (a + 1) n

abbrev stored : ℕ → List ℕ → (ℕ → ℕ) → ℕ → ℕ
stored a xs s r = if ltb r a || leb (a + length xs) r then s r else get_or xs (r - a) 0

abbrev chip : I2c (ℕ → ℕ)
chip = record {
  read_bytes = λ a n s. (some (registers s a n), s);
  write_bytes = λ a xs s. (true, stored a xs s);
}

chip_kept :
    (a : ℕ) (xs : List ℕ) (s : ℕ → ℕ)
    → (a + length xs ≤ 3) ⊎ ((4 ≤ a) × (a + length xs ≤ 18))
    → stored a xs s 3 ≡ s 3
chip_kept a xs s h = ground arith

chip-KeepsMarker : KeepsMarker chip (λ s. s 3)
chip-KeepsMarker = record {
  read_held = λ a n s. refl;
  read_image = λ raw s h. ap (λ (x : List ℕ). get_or x 3 0) (sym (some-injective _ _ h));
  write_elsewhere = chip_kept;
  write_done = λ v s h. refl;
  write_failed = λ v s h. absurd (cc h);
}

-- 2024-02-29 at 05:07:09, a Thursday.
abbrev now : EspTime
now = record {
  second = 9;
  minute = 7;
  hour = 5;
  day_of_week = 5;
  day_of_month = 29;
  month = 2;
  year = 2024;
  timestamp = pos 1_709_183_229;
}

abbrev clock : EspClock
clock = record { from_epoch_utc = λ epoch. now; is_valid = λ t. true }

decode-value_of_example : decode clock (1 ∷ 0 ∷ 0 ∷ 0xA7 ∷ value_of now) ≡ some now
unfolding valid_date
decode-value_of_example =
    decode-value_of clock 1 0 0 0xA7 now refl
      (record {
        second_ok = omega arith;
        minute_ok = omega arith;
        hour_ok = omega arith;
        weekday_from = omega arith;
        weekday_to = omega arith;
        year_from = omega arith;
        year_to = omega arith;
        date_ok = refl;
      })
      refl refl

abbrev blank : ℕ → ℕ
blank r = 0

saved : (save chip clock true now pending blank).0 ≡ verified
unfolding save value_of saveable in_time decode program valid_date day_number ◌+ℤ◌ ◌-ℤ◌ ◌*ℤ◌
saved = refl

abbrev after_save : ℕ → ℕ
after_save = (save chip clock true now pending blank).1

restored_then : (restore chip clock false false true after_save).0 ≡ (restored, some 1_709_183_229)
unfolding restore save value_of saveable in_time decode program valid_date day_number ◌+ℤ◌ ◌-ℤ◌ ◌*ℤ◌
restored_then = refl

restore-save_example : Trusted chip clock now blank after_save
restore-save_example =
    restore-save chip clock (λ s. s 3) chip-KeepsMarker true now pending blank after_save false
      false true 1_709_183_229 refl (ap (λ x. x.1) restored_then)
