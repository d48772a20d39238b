-- ===== src/Rtc/RoundTrip.antt =====
-- What `save_` writes to the clock chip is what `decode` reads from it.
use openathan.Base.{
  ℕ, ◌+◌, ◌-◌, ◌*◌, ◌/◌, ◌%◌, ◌^◌, ◌≤◌, ◌≡◌, refl, ℤ, pos, ◌+ℤ◌, ◌*ℤ◌, true, false, some, ◌∷◌,
  arith,
}
use openathan.Calendar.{CivilDate, valid_date, day_number}
use openathan.Rtc.{
  EspTime, EspClock, bcd, encoded, decode, decode_fields, fields_of, value_of, invalid_control, bit,
}

abbrev pub date_of : EspTime → CivilDate
date_of t = record { year = pos t.year; month = t.month; day = t.day_of_month }

-- The seconds since the epoch that the fields of a time stand for.
abbrev pub epoch_of : EspTime → ℤ
epoch_of t = day_number (date_of t) *ℤ 86_400 +ℤ pos (t.hour * 3600 + t.minute * 60 + t.second)

-- A time that the chip can hold.
pub record IsKept (t : EspTime) : Type 0 where
  pub second_ok : t.second ≤ 59
  pub minute_ok : t.minute ≤ 59
  pub hour_ok : t.hour ≤ 23
  pub weekday_from : 1 ≤ t.day_of_week
  pub weekday_to : t.day_of_week ≤ 7
  pub year_from : 2019 ≤ t.year
  pub year_to : t.year ≤ 2099
  pub date_ok : valid_date (date_of t) ≡ true

tens : (v : ℕ) → v ≤ 99 → (v / 10 * 16 + v % 10) % 256 / 16 ≡ v / 10
tens v h = omega arith

units : (v : ℕ) → v ≤ 99 → (v / 10 * 16 + v % 10) % 256 % 16 ≡ v % 10
units v h = omega arith

whole : (v : ℕ) → v / 10 * 10 + v % 10 ≡ v
whole v = omega arith

bcd-encoded : (v mask : ℕ) → v ≤ 99 → encoded v ≤ mask → bcd (encoded v) mask ≡ some v
unfolding bcd encoded
bcd-encoded v mask h k = rw (tens v h, units v h, whole v) (ground (arith, k))

encoded_le : (v m : ℕ) → v ≤ m → m ≤ 99 → encoded v ≤ m / 10 * 16 + 9
unfolding encoded
encoded_le v m h k = omega arith

date_parts : (t : EspTime) → valid_date (date_of t) ≡ true → (t.month ≤ 12) × (t.day_of_month ≤ 31)
unfolding valid_date
date_parts t h = ground arith

year_back : (y : ℕ) → 2019 ≤ y → y ≤ 2099 → (y + 2 ^ 32 - 2000) % 2 ^ 32 ≡ y - 2000
year_back y h k = omega arith

-- The registers from the fourth on give back the fields.
fields_of-value_of :
    (c0 c1 c2 c3 : ℕ) (t : EspTime)
    → IsKept t
    → fields_of (c0 ∷ c1 ∷ c2 ∷ c3 ∷ value_of t)
      ≡ some (record {
        second = t.second;
        minute = t.minute;
        hour = t.hour;
        day = t.day_of_month;
        month = t.month;
        year = t.year - 2000;
      })
unfolding fields_of value_of
fields_of-value_of c0 c1 c2 c3 t k =
    let d = date_parts t k.date_ok in
    rw
      (
        year_back t.year k.year_from k.year_to,
        bcd-encoded t.second 0x7F (omega (arith, k.second_ok))
            (omega (arith, encoded_le t.second 59 k.second_ok (omega arith))),
        bcd-encoded t.minute 0x7F (omega (arith, k.minute_ok))
            (omega (arith, encoded_le t.minute 59 k.minute_ok (omega arith))),
        bcd-encoded t.hour 0x3F (omega (arith, k.hour_ok))
            (omega (arith, encoded_le t.hour 23 k.hour_ok (omega arith))),
        bcd-encoded t.day_of_month 0x3F (omega (arith, d.1))
            (omega (arith, encoded_le t.day_of_month 31 d.1 (omega arith))),
        bcd-encoded t.month 0x1F (omega (arith, d.0))
            (omega (arith, encoded_le t.month 12 d.0 (omega arith))),
        bcd-encoded (t.year - 2000) 0xFF (omega (arith, k.year_to))
            (omega (arith, encoded_le (t.year - 2000) 99 (omega (arith, k.year_to)) (omega arith))),
      )
      refl

weekday_back : (d : ℕ) → 1 ≤ d → d ≤ 7 → (d + 255) % 256 ≡ d - 1
weekday_back d h k = omega arith

decode_fields_kept :
    (clock : EspClock) (t : EspTime)
    → IsKept t
    → clock.from_epoch_utc (epoch_of t) ≡ t
    → clock.is_valid t ≡ true
    → decode_fields clock (t.day_of_week - 1) (record {
      second = t.second;
      minute = t.minute;
      hour = t.hour;
      day = t.day_of_month;
      month = t.month;
      year = t.year - 2000;
    })
      ≡ some t
unfolding decode_fields
decode_fields_kept clock t k from valid =
    let year : t.year - 2000 + 2000 ≡ t.year = omega (arith, k.year_from) in
    rw (year, from, valid, k.date_ok) (ground (arith, k))

-- The seconds leave the chip's bit for a stopped oscillator clear.
running : (second : ℕ) → second ≤ 59 → bit (encoded second) 0x80 ≡ false
running second h = ground (arith, encoded_le second 59 h (omega arith))

-- The registers that are written for a time are decoded as that time, under a control register that
-- does not refuse: for a time of the years 2019 to 2099 that is valid to ESPHome and whose fields
-- are those of its epoch.
pub decode-value_of :
    (clock : EspClock) (c0 c1 c2 c3 : ℕ) (t : EspTime)
    → invalid_control c0 ≡ false
    → IsKept t
    → clock.from_epoch_utc (epoch_of t) ≡ t
    → clock.is_valid t ≡ true
    → decode clock (c0 ∷ c1 ∷ c2 ∷ c3 ∷ value_of t) ≡ some t
unfolding decode value_of
decode-value_of clock c0 c1 c2 c3 t control k from valid =
    rw
      (
        control,
        fields_of-value_of c0 c1 c2 c3 t k,
        running t.second k.second_ok,
        weekday_back t.day_of_week k.weekday_from k.weekday_to,
      )
      (decode_fields_kept clock t k from valid)
