-- ===== src/StateRecord.antt =====
-- lib/openathan-core/src/scheduler_state.cpp: the thirty-six-byte record of the scheduler's durable
-- state. A record is a list of thirty-six bytes.
pub mod RoundTrip
use openathan.Base.{
  ℕ, ◌+◌, ◌≡◌, refl, ℤ, pos, ◌-ℤ◌, ◌+ℤ◌, leb_ℤ, eq_ℤ, Bool, true, false, not, ◌&&◌, ◌||◌, Option,
  none, some, List, [], ◌∷◌, ltb, ◌==◌, if◌then◌else◌, get_or, set, take, replicate,
}
use openathan.Bytes.{put_u32, read_u32, crc32}
use openathan.Bytes.Signed.{to_u32, of_u32}
use openathan.Calendar.{date, day_number}
use openathan.Scheduler.{
  Prayer, fajr, dhuhr, asr, maghrib, isha, PerPrayer, at, EventKey, DurableState, never_consumed,
}

abbrev pub number_of : Prayer → ℕ
number_of fajr = 0
number_of dhuhr = 1
number_of asr = 2
number_of maghrib = 3
number_of isha = 4

-- `static_cast<Prayer>` of a byte that is at most four.
abbrev pub prayer_of : ℕ → Prayer
prayer_of n =
    if n == 0
    then fajr
    else if n == 1
    then dhuhr
    else if n == 2
    then asr
    else if n == 3
    then maghrib
    else isha

abbrev pub put_marks : List ℕ → PerPrayer ℤ → List ℕ
put_marks r m =
    put_u32
      (put_u32
        (put_u32 (put_u32 (put_u32 r 4 (to_u32 m.of_fajr)) 8 (to_u32 m.of_dhuhr)) 12
          (to_u32 m.of_asr))
        16 (to_u32 m.of_maghrib))
      20 (to_u32 m.of_isha)

abbrev pub put_skip : List ℕ → Option EventKey → List ℕ
put_skip r none = r
put_skip r (some k) = put_u32 (set (set r 24 1) 25 (number_of k.prayer)) 28 (to_u32 k.day)

abbrev pub blank : List ℕ
blank = b'O' ∷ b'A' ∷ b'S' ∷ b'1' ∷ replicate 32 0

unfoldable pub encode_state : DurableState → List ℕ
encode_state state =
    let body = put_skip (put_marks blank state.consumed_through) state.skip in
    put_u32 body 32 (crc32 (take 32 body))

-- A day from two before the first supported date to one after the last.
unfoldable pub valid_serial : ℤ → Bool
unfolding day_number
valid_serial serial =
    leb_ℤ (day_number (date 1900 1 1) -ℤ pos 2) serial
    && leb_ℤ serial (day_number (date 2100 12 31) +ℤ pos 1)

abbrev pub mark_ok : ℤ → Bool
mark_ok serial = eq_ℤ serial never_consumed || valid_serial serial

unfoldable pub marks_of : List ℕ → PerPrayer ℤ
marks_of r = record {
  of_fajr = of_u32 (read_u32 r 4);
  of_dhuhr = of_u32 (read_u32 r 8);
  of_asr = of_u32 (read_u32 r 12);
  of_maghrib = of_u32 (read_u32 r 16);
  of_isha = of_u32 (read_u32 r 20);
}

unfoldable pub marks_ok : PerPrayer ℤ → Bool
marks_ok m =
    mark_ok m.of_fajr
    && mark_ok m.of_dhuhr
    && mark_ok m.of_asr
    && mark_ok m.of_maghrib
    && mark_ok m.of_isha

-- The first test of `decode_state`.
unfoldable pub header_ok : List ℕ → Bool
header_ok r =
    get_or r 0 0 == b'O'
    && get_or r 1 0 == b'A'
    && get_or r 2 0 == b'S'
    && get_or r 3 0 == b'1'
    && not (ltb 1 (get_or r 24 0))
    && not (ltb 4 (get_or r 25 0))
    && get_or r 26 0 == 0
    && get_or r 27 0 == 0
    && read_u32 r 32 == crc32 (take 32 r)

unfoldable pub decode_skip : List ℕ → PerPrayer ℤ → Option DurableState
unfolding valid_serial
decode_skip r marks =
    let serial = of_u32 (read_u32 r 28) in
    let prayer = prayer_of (get_or r 25 0) in
    if get_or r 24 0 == 0
    then (if not (get_or r 25 0 == 0) || not (read_u32 r 28 == 0)
        then none
        else some (record { consumed_through = marks; skip = none }))
    else if not (valid_serial serial) || leb_ℤ serial (at marks prayer)
    then none
    else some (record {
      consumed_through = marks;
      skip = some (record { day = serial; prayer = prayer });
    })

unfoldable pub decode_state : List ℕ → Option DurableState
decode_state r =
    if not (header_ok r)
    then none
    else if not (marks_ok (marks_of r))
    then none
    else decode_skip r (marks_of r)
