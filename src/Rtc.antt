-- ===== src/Rtc.antt =====
-- firmware/esphome/components/waveshare_box_rtc/rtc.cpp: the clock chip that keeps UTC while the
-- device is off. Registers are numbers below 256; the bits that the source masks are taken from
-- them by division. The bus and ESPHome's time are not of this repository: the bus is an
-- interface over states of type `S`, and the conversion of an epoch and the validity of a time are
-- parameters.
pub mod RoundTrip
pub mod Interrupted
use openathan.Base.{
  ℕ, ◌+◌, ◌-◌, ◌*◌, ◌/◌, ◌%◌, ◌^◌, ℤ, pos, pos_part, ◌+ℤ◌, ◌*ℤ◌, Bool, true, false, not, ◌&&◌, ◌||◌,
  Option, none, some, List, [], ◌∷◌, get_or, ◌>>=◌, is_some, ltb, leb, ltb_ℤ, ◌==◌, if◌then◌else◌,
}
use openathan.Calendar.{CivilDate, valid_date, day_number}

-- `i2c::I2CDevice`: registers read from an address, none where the call returns false, and
-- registers written from an address.
pub record I2c (S : Type 0) : Type 0 where
  pub read_bytes : ℕ → ℕ → S → Option (List ℕ) × S
  pub write_bytes : ℕ → List ℕ → S → Bool × S

abbrev pub write_byte : {S : Type 0} → I2c S → ℕ → ℕ → S → Bool × S
write_byte i2c register value s = i2c.write_bytes register (value ∷ []) s

-- The fields of `ESPTime` that are used here.
pub record EspTime : Type 0 where
  pub second : ℕ
  pub minute : ℕ
  pub hour : ℕ
  pub day_of_week : ℕ
  pub day_of_month : ℕ
  pub month : ℕ
  pub year : ℕ
  pub timestamp : ℤ

-- What is used of ESPHome's time: `ESPTime::from_epoch_utc` and `ESPTime::is_valid`.
pub record EspClock : Type 0 where
  pub from_epoch_utc : ℤ → EspTime
  pub is_valid : EspTime → Bool

-- The strings of `restore_result_` and `save_result_`.
pub data RtcResult : Type 0 where
  pending system_valid io_error uninitialized invalid restored time_invalid verified
        readback_error :
      RtcResult

abbrev pub marker : ℕ
marker = 0xA7

abbrev pub stop_bit : ℕ
stop_bit = 0x20

abbrev pub bit : ℕ → ℕ → Bool
bit raw weight = raw / weight % 2 == 1

-- `raw[0] & INVALID_CONTROL`, of the bits 0x80, 0x20, 0x10 and 0x02.
abbrev pub invalid_control : ℕ → Bool
invalid_control raw = bit raw 0x80 || bit raw 0x20 || bit raw 0x10 || bit raw 0x02

-- `raw[0] & PRESERVE_CONTROL`, of the bits 0x04 and 0x01.
abbrev pub preserve_control : ℕ → ℕ
preserve_control raw = raw / 4 % 2 * 4 + raw % 2

-- Every mask is one less than a power of two, so that a bit outside it makes a number above it.
unfoldable pub bcd : ℕ → ℕ → Option ℕ
bcd raw mask =
    if ltb mask raw || ltb 9 (raw % 16) || ltb 9 (raw / 16)
    then none
    else some (raw / 16 * 10 + raw % 16)

unfoldable pub encoded : ℕ → ℕ
encoded value = (value / 10 * 16 + value % 10) % 256

-- The fields of a register image that `bcd` accepts, in the source's order.
pub record Fields : Type 0 where
  second : ℕ
  minute : ℕ
  hour : ℕ
  day : ℕ
  month : ℕ
  year : ℕ

unfoldable pub fields_of : List ℕ → Option Fields
unfolding bcd
fields_of raw = do
  second ← bcd (get_or raw 4 0) 0x7F
  minute ← bcd (get_or raw 5 0) 0x7F
  hour ← bcd (get_or raw 6 0) 0x3F
  day ← bcd (get_or raw 7 0) 0x3F
  month ← bcd (get_or raw 9 0) 0x1F
  year ← bcd (get_or raw 10 0) 0xFF
  some (record {
    second = second;
    minute = minute;
    hour = hour;
    day = day;
    month = month;
    year = year;
  })

-- `decode` after the conversions.
unfoldable pub decode_fields : EspClock → ℕ → Fields → Option EspTime
unfolding valid_date day_number
decode_fields clock weekday f =
    let date : CivilDate = record { year = pos (f.year + 2000); month = f.month; day = f.day } in
    let epoch = day_number date *ℤ 86_400 +ℤ pos (f.hour * 3600 + f.minute * 60 + f.second) in
    let out = clock.from_epoch_utc epoch in
    if ltb 59 f.second || ltb 59 f.minute || ltb 23 f.hour || ltb 6 weekday
    then none
    else if ltb_ℤ date.year (pos 2019) || not (valid_date date)
    then none
    else if clock.is_valid out && out.day_of_week == weekday + 1
    then some out
    else none

unfoldable pub decode : EspClock → List ℕ → Option EspTime
unfolding fields_of decode_fields
decode clock raw =
    if invalid_control (get_or raw 0 0) || bit (get_or raw 4 0) 0x80
    then none
    else do f ← fields_of raw; decode_fields clock (get_or raw 8 0) f

-- `value` of `save_`.
unfoldable pub value_of : EspTime → List ℕ
unfolding encoded
value_of now =
    encoded now.second
    ∷ encoded now.minute
    ∷ encoded now.hour
    ∷ encoded now.day_of_month
    ∷ (now.day_of_week + 255) % 256
    ∷ encoded now.month
    ∷ encoded ((now.year + 2 ^ 32 - 2000) % 2 ^ 32)
    ∷ []

-- `restore_` after its read: whether the system's clock is valid now, and whether it is after
-- `synchronize_epoch_`; the second part is the epoch that this is called with. No time from 2019
-- on lies before the epoch.
unfoldable pub restore_from : EspClock → Bool → Bool → List ℕ → RtcResult × Option ℕ
unfolding decode
restore_from clock valid synchronized raw =
    if not (get_or raw 3 0 == marker) then (uninitialized, none) else elim (decode clock raw) [
      | none ↦ (invalid, none)
      | some stored ↦ if valid then (system_valid, none) else (
        if synchronized then restored else time_invalid,
        some (pos_part stored.timestamp % 2 ^ 32),
      )
    ]

-- Whether a time that was read back is at most two seconds past the time that was written.
unfoldable pub in_time : EspTime → EspTime → Bool
in_time now t = not (ltb_ℤ t.timestamp now.timestamp || ltb_ℤ (now.timestamp +ℤ pos 2) t.timestamp)

unfoldable pub saveable : EspClock → EspTime → Bool
saveable clock now = not (not (clock.is_valid now) || ltb 2099 now.year || ltb 59 now.second)

module _ {S : Type 0} (i2c : I2c S) where
  -- The four writes after the first read, up to the first that fails.
  unfoldable pub program : ℕ → EspTime → S → Bool × S
  unfolding value_of
  program control now s =
      let unmarked = write_byte i2c 3 0 s in
      let stopped = write_byte i2c 0 (control + stop_bit) unmarked.1 in
      let written = i2c.write_bytes 4 (value_of now) stopped.1 in
      if not unmarked.0
      then unmarked
      else if not stopped.0
      then stopped
      else if not written.0
      then written
      else write_byte i2c 0 control written.1

  -- `save_` from the write of the marker.
  unfoldable pub commit : S → RtcResult × S
  commit s =
      let marked = write_byte i2c 3 marker s in
      let back = i2c.read_bytes 3 1 marked.1 in
      if not marked.0 then (io_error, marked.1) else elim back.0 [
        | none ↦ (io_error, back.1)
        | some m ↦ (if get_or m 0 0 == marker then verified else readback_error, back.1)
      ]

module _ {S : Type 0} (i2c : I2c S) (clock : EspClock) where
  -- `restore_`, where the system's clock was valid first, after the read and at the end or not.
  unfoldable pub restore : Bool → Bool → Bool → S → (RtcResult × Option ℕ) × S
  unfolding restore_from
  restore valid still synchronized s = if valid then ((system_valid, none), s) else (
    elim (i2c.read_bytes 0 11 s).0 [
      | none ↦ (io_error, none)
      | some raw ↦ restore_from clock still synchronized raw
    ],
    (i2c.read_bytes 0 11 s).1,
  )

  -- `save_` from its second read.
  unfoldable pub verify : EspTime → S → RtcResult × S
  unfolding commit in_time decode
  verify now s =
      let back = i2c.read_bytes 0 11 s in
      elim back.0 [
        | none ↦ (io_error, back.1)
        | some raw ↦ elim (decode clock raw) [
          | none ↦ (readback_error, back.1)
          | some t ↦ if not (in_time now t) then (readback_error, back.1) else commit i2c back.1
        ]
      ]

  -- `save_` from its first write, with the registers that it has read.
  unfoldable pub save_over : EspTime → List ℕ → S → RtcResult × S
  unfolding program verify
  save_over now raw s =
      let programmed = program i2c (preserve_control (get_or raw 0 0)) now s in
      if not programmed.0 then (io_error, programmed.1) else verify now programmed.1

  -- `save_`, with the result that it leaves in place of the one before, and whether an update over
  -- the network has completed.
  unfoldable pub save : Bool → EspTime → RtcResult → S → RtcResult × S
  unfolding save_over saveable
  save completed now before s =
      let back = i2c.read_bytes 0 11 s in
      if not completed
      then (before, s)
      else if not (saveable clock now)
      then (time_invalid, s)
      else elim back.0 [ none ↦ (io_error, back.1) | some raw ↦ save_over now raw back.1 ]
