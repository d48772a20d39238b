-- ===== src/Settings/Record.antt =====
-- `encode_settings` and `decode_settings`: the 192-byte record of the device's settings. `put` fills
-- the record from its start, so the record is the list of what was put, then zeros up to the
-- checksum. `get` reads on from a place; the places behind the name count from the name's end.
pub mod Fields
pub mod RoundTrip
use openathan.Base.{
  ℕ, zero, suc, ◌+◌, ◌-◌, ◌*◌, ◌/◌, ◌%◌, ◌^◌, ℤ, pos, negsuc, Bool, true, false, not, ◌||◌, Option,
  none, some, List, [], ◌∷◌, ◌++◌, length, get_or, take, drop, replicate, pad, list_eq, ltb, ◌==◌,
  if◌then◌else◌,
}
use openathan.Bytes.{bytes_of, read_bytes, read_u32, crc32}
use openathan.Bytes.Signed.{to_u32, of_u32}
use openathan.Scheduler.{Settings, PerPrayer}
use openathan.Settings.{
  DstRule, Timezone, DeviceSettings, SavedSettings, timezone_name_size, valid_device_settings,
}

-- `static_cast<uint16_t>` of an `int`, and `std::bit_cast<int16_t>`.
unfoldable pub to_u16 : ℤ → ℕ
to_u16 (pos n) = n % 2 ^ 16
to_u16 (negsuc n) = 2 ^ 16 - 1 - n % 2 ^ 16

unfoldable pub of_u16 : ℕ → ℤ
of_u16 w = if ltb w (2 ^ 15) then pos w else negsuc (2 ^ 16 - 1 - w)

abbrev pub bit : Bool → ℕ
bit true = 1
bit false = 0

-- `enabled |= 1U << i`, for the five prayers.
abbrev pub enabled_bits : PerPrayer Bool → ℕ
enabled_bits e =
    bit e.of_fajr
    + 2 * bit e.of_dhuhr
    + 4 * bit e.of_asr
    + 8 * bit e.of_maghrib
    + 16 * bit e.of_isha

abbrev pub bit_at : ℕ → ℕ → Bool
bit_at n place = n / place % 2 == 1

abbrev pub enabled_of : ℕ → PerPrayer Bool
enabled_of n = record {
  of_fajr = bit_at n 1;
  of_dhuhr = bit_at n 2;
  of_asr = bit_at n 4;
  of_maghrib = bit_at n 8;
  of_isha = bit_at n 16;
}

abbrev pub put_offsets : List ℤ → List ℕ
put_offsets [] = []
put_offsets (o ∷ os) = bytes_of 2 (to_u16 o) ++ put_offsets os

-- As many offsets as the first argument says, from the start of a list.
abbrev pub get_offsets : ℕ → List ℕ → List ℤ
get_offsets zero r = []
get_offsets (suc n) r = of_u16 (read_bytes 2 r 0) ∷ get_offsets n (drop 2 r)

abbrev pub put_rule : DstRule → List ℕ
put_rule r =
    bytes_of 4 (to_u32 r.time_seconds)
    ++ bytes_of 2 r.day
    ++ (r.type % 256) ∷ (r.month % 256) ∷ (r.week % 256) ∷ (r.day_of_week % 256) ∷ []

abbrev pub get_rule : List ℕ → DstRule
get_rule r = record {
  time_seconds = of_u32 (read_bytes 4 r 0);
  day = read_bytes 2 r 4;
  type = get_or r 6 0;
  month = get_or r 7 0;
  week = get_or r 8 0;
  day_of_week = get_or r 9 0;
}

-- Up to the offsets.
abbrev pub put_place : ℕ → Settings → List ℕ
put_place revision p =
    b'O'
    ∷ b'A'
    ∷ b'C'
    ∷ b'1'
    ∷ (bytes_of 4 revision
        ++ bytes_of 8 p.latitude
        ++ bytes_of 8 p.longitude
        ++ (p.method % 256) ∷ bit p.hanafi ∷ (p.high_latitude % 256) ∷ [])

-- Behind the name.
abbrev pub put_zone : Timezone → List ℕ
put_zone tz =
    bytes_of 4 (to_u32 tz.standard_offset)
    ++ bytes_of 4 (to_u32 tz.daylight_offset)
    ++ put_rule tz.start
    ++ put_rule tz.end
    ++ replicate 22 0

-- All but the checksum.
unfoldable pub settings_body : SavedSettings → List ℕ
settings_body saved =
    let s = saved.value in
    put_place saved.revision s.prayer
    ++ (put_offsets s.prayer.offsets
        ++ (enabled_bits s.prayer.enabled
            ∷ (s.volume % 256)
            ∷ (length s.timezone.name % 256)
            ∷ (pad timezone_name_size 0 s.timezone.name ++ put_zone s.timezone)))

unfoldable pub encode_settings : SavedSettings → List ℕ
unfolding settings_body
encode_settings saved = settings_body saved ++ bytes_of 4 (crc32 (settings_body saved))

-- The places of the fields in front of the name, and of the name.
unfoldable pub get_prayer : List ℕ → Settings
get_prayer r = record {
  latitude = read_bytes 8 r 8;
  longitude = read_bytes 8 r 16;
  method = get_or r 24 0;
  hanafi = get_or r 25 0 == 1;
  high_latitude = get_or r 26 0;
  offsets = get_offsets 6 (drop 27 r);
  enabled = enabled_of (get_or r 39 0);
}

unfoldable pub get_zone : List ℕ → List ℕ → Timezone
get_zone name r = record {
  name = name;
  standard_offset = of_u32 (read_bytes 4 r 0);
  daylight_offset = of_u32 (read_bytes 4 r 4);
  start = get_rule (drop 8 r);
  end = get_rule (drop 18 r);
}

unfoldable pub get_settings : List ℕ → SavedSettings
unfolding get_prayer get_zone
get_settings r = record {
  revision = read_u32 r 4;
  value = record {
    prayer = get_prayer r;
    timezone = get_zone (take (get_or r 41 0) (drop 42 r)) (drop timezone_name_size (drop 42 r));
    volume = get_or r 40 0;
  };
}

-- The tests of single bytes, and of the checksum and the magic.
unfoldable pub bytes_refused : List ℕ → Bool
bytes_refused r =
    not (read_bytes 4 (drop 188 r) 0 == crc32 (take 188 r))
    || not (list_eq (take 4 r) (b'O' ∷ b'A' ∷ b'C' ∷ b'1' ∷ []))
    || ltb 1 (get_or r 25 0)
    || ltb 31 (get_or r 39 0)
    || ltb timezone_name_size (get_or r 41 0)

-- The last test of `decode_settings`.
unfoldable pub settings_refused : SavedSettings → List ℕ → Bool
settings_refused candidate r =
    candidate.revision == 0
    || not (valid_device_settings candidate.value)
    || not (list_eq (encode_settings candidate) r)

unfoldable pub decode_settings : List ℕ → Option SavedSettings
decode_settings r =
    if bytes_refused r
    then none
    else if settings_refused (get_settings r) r
    then none
    else some (get_settings r)
