-- ===== src/StateRecord/RoundTrip.antt =====
-- `decode_state` undoes `encode_state`.
use openathan.Base.{
  ◌+◌, ◌*◌, ◌/◌, ◌%◌, ◌≤◌, ◌≡◌, refl, ℤ, ◌<ℤ◌, true, Option, none, some, arith, eq_ℤ_iff, take,
}
use openathan.Bytes.{crc32-lt, word_bytes}
use openathan.Bytes.Signed.{to_u32, of_u32, to_u32-lt, of_u32-to_u32, IsInt32}
use openathan.Scheduler.{
  Prayer, fajr, dhuhr, asr, maghrib, isha, PerPrayer, at, EventKey, DurableState, never_consumed,
}
use openathan.StateRecord.{
  encode_state, decode_state, decode_skip, header_ok, valid_serial, mark_ok, marks_of, marks_ok,
  number_of, prayer_of,
}

-- What the scheduler may store: every mark is unset or a day near the supported dates, and the
-- skipped day is one that its prayer's mark has not reached.
pub record IsStorable (s : DurableState) : Type 0 where
  pub marks_valid : marks_ok s.consumed_through ≡ true
  pub skip_valid : (k : EventKey) → s.skip ≡ some k → valid_serial k.day ≡ true
  pub skip_later : (k : EventKey) → s.skip ≡ some k → at s.consumed_through k.prayer <ℤ k.day

valid_serial-IsInt32 : (z : ℤ) → valid_serial z ≡ true → IsInt32 z
unfolding valid_serial
valid_serial-IsInt32 z h = ground arith

mark_ok-IsInt32 : (z : ℤ) → mark_ok z ≡ true → IsInt32 z
mark_ok-IsInt32 z h = ground (arith, valid_serial-IsInt32 z, (eq_ℤ_iff z never_consumed).0)

abbrev state_with : PerPrayer ℤ → Option EventKey → DurableState
state_with m o = record { consumed_through = m; skip = o }

number_of-le : (p : Prayer) → number_of p ≤ 4
number_of-le fajr = omega arith
number_of-le dhuhr = omega arith
number_of-le asr = omega arith
number_of-le maghrib = omega arith
number_of-le isha = omega arith

prayer_of-number_of : (p : Prayer) → prayer_of (number_of p) ≡ p
prayer_of-number_of fajr = refl
prayer_of-number_of dhuhr = refl
prayer_of-number_of asr = refl
prayer_of-number_of maghrib = refl
prayer_of-number_of isha = refl

header_ok-encode_state :
    (m : PerPrayer ℤ) (o : Option EventKey) → header_ok (encode_state (state_with m o)) ≡ true
unfolding header_ok encode_state
header_ok-encode_state m none =
    ground (arith, word_bytes _ (crc32-lt (take 32 (encode_state (state_with m none)))))
header_ok-encode_state m (some k) = ground (
  arith,
  number_of-le k.prayer,
  word_bytes _ (crc32-lt (take 32 (encode_state (state_with m (some k))))),
)

word_of-to_u32 :
    (z : ℤ)
    → mark_ok z ≡ true
    → of_u32 (
        to_u32 z % 256
        + 256
          * (to_u32 z / 256 % 256
              + 256
                * (to_u32 z / 256 / 256 % 256
                    + 256 * (to_u32 z / 256 / 256 / 256 % 256 + 256 * 0))))
      ≡ z
word_of-to_u32 z h =
    rw (word_bytes (to_u32 z) (to_u32-lt z)) (of_u32-to_u32 z (mark_ok-IsInt32 z h))

marks_of-encode_state :
    (m : PerPrayer ℤ) (o : Option EventKey)
    → marks_ok m ≡ true
    → marks_of (encode_state (state_with m o)) ≡ m
unfolding encode_state marks_of marks_ok
marks_of-encode_state m none h = ground (
  arith,
  word_of-to_u32 m.of_fajr,
  word_of-to_u32 m.of_dhuhr,
  word_of-to_u32 m.of_asr,
  word_of-to_u32 m.of_maghrib,
  word_of-to_u32 m.of_isha,
)
marks_of-encode_state m (some k) h = ground (
  arith,
  word_of-to_u32 m.of_fajr,
  word_of-to_u32 m.of_dhuhr,
  word_of-to_u32 m.of_asr,
  word_of-to_u32 m.of_maghrib,
  word_of-to_u32 m.of_isha,
)

decode_skip-encode_state :
    (m : PerPrayer ℤ) (o : Option EventKey)
    → IsStorable (state_with m o)
    → decode_skip (encode_state (state_with m o)) m ≡ some (state_with m o)
unfolding decode_skip encode_state
decode_skip-encode_state m none h = refl
decode_skip-encode_state m (some k) h =
    let valid = h.skip_valid k refl in
    rw (word_of-to_u32 k.day (ground arith), prayer_of-number_of k.prayer)
      (ground (arith, h.skip_later k refl))

-- A durable state is read back from its record unchanged, if every watermark is unset or a day near
-- the supported dates, and a skipped day is such a day, later than its prayer's watermark.
pub decode_state-encode_state :
    (s : DurableState) → IsStorable s → decode_state (encode_state s) ≡ some s
unfolding decode_state
decode_state-encode_state s h =
    let m = s.consumed_through in
    let o = s.skip in
    rw (header_ok-encode_state m o, marks_of-encode_state m o h.marks_valid, h.marks_valid)
      (decode_skip-encode_state m o h)
