-- ===== src/Settings/Record/Fields.antt =====
-- The fields of the settings record, each written and read back, and what validity says of them.
use openathan.Base.{
  ℕ, ◌+◌, ◌*◌, ◌/◌, ◌%◌, ◌^◌, ◌<◌, ◌≤◌, ◌≡◌, refl, ℤ, pos, negsuc, Bool, true, not, ◌||◌, ◌==◌,
  eq_ℤ, bool_eq, ◌&&◌, List, [], ◌∷◌, length, drop, take, arith, ◌++◌, leb, get_or, pos_part,
  neg_part, All, replicate,
}
use openathan.Bytes.{read_u32, u32_mod, word_bytes, double_word_bytes}
use openathan.Bytes.Signed.{to_u32, of_u32-to_u32, IsInt32, to_u32-lt}
use openathan.PrayerCalculator.Order.{offsets_valid-allowed}
use openathan.Scheduler.Valid.{valid_settings}
use openathan.Scheduler.{Settings, PerPrayer}
use openathan.PrayerCalculator.{offsets_allowed}
use openathan.Settings.{
  DstRule, Timezone, DeviceSettings, SavedSettings, valid_rule, rule_eq, valid_timezone,
  valid_device_settings, offset_ok, printable,
}
use openathan.Settings.Record.{
  to_u16, of_u16, enabled_bits, enabled_of, put_offsets, get_offsets, put_rule, get_rule, get_zone,
  put_zone, put_place, get_prayer, get_settings,
}

of_u16-to_u16 : (z : ℤ) → pos_part z < 2 ^ 15 → neg_part z ≤ 2 ^ 15 → of_u16 (to_u16 z) ≡ z
unfolding of_u16 to_u16
of_u16-to_u16 (pos n) h k = ground arith
of_u16-to_u16 (negsuc n) h k = ground arith

enabled_of-enabled_bits : (e : PerPrayer Bool) → enabled_of (enabled_bits e) ≡ e
enabled_of-enabled_bits e = ground arith

-- A rule in the ranges of its fields.
abbrev pub RuleFits : DstRule → Type 0
RuleFits r =
    IsInt32 r.time_seconds
    × (r.day < 2 ^ 16)
    × (r.type < 256)
    × (r.month < 256)
    × (r.week < 256)
    × (r.day_of_week < 256)

valid_rule-RuleFits : (r : DstRule) → valid_rule r ≡ true → RuleFits r
unfolding valid_rule rule_eq
valid_rule-RuleFits r h = ground arith

get_rule-put_rule : (r : DstRule) (rest : List ℕ) → RuleFits r → get_rule (put_rule r ++ rest) ≡ r
get_rule-put_rule r rest h = ground (
  arith,
  word_bytes (to_u32 r.time_seconds) (to_u32-lt r.time_seconds),
  of_u32-to_u32 r.time_seconds h.0,
)

to_u16-lt : (z : ℤ) → to_u16 z < 2 ^ 16
unfolding to_u16
to_u16-lt (pos n) = omega arith
to_u16-lt (negsuc n) = omega arith

half_bytes : (v : ℕ) → v < 2 ^ 16 → v % 256 + 256 * (v / 256 % 256 + 256 * 0) ≡ v
half_bytes v h = omega arith

pub get_zone-put_zone :
    (tz : Timezone) (rest : List ℕ)
    → IsInt32 tz.standard_offset
    → IsInt32 tz.daylight_offset
    → RuleFits tz.start
    → RuleFits tz.end
    → get_zone tz.name (put_zone tz ++ rest) ≡ tz
unfolding get_zone
get_zone-put_zone tz rest standard daylight start end = ground (
  arith,
  word_bytes (to_u32 tz.standard_offset) (to_u32-lt tz.standard_offset),
  of_u32-to_u32 tz.standard_offset standard,
  word_bytes (to_u32 tz.daylight_offset) (to_u32-lt tz.daylight_offset),
  of_u32-to_u32 tz.daylight_offset daylight,
  get_rule-put_rule tz.start (put_rule tz.end ++ replicate 22 0 ++ rest) start,
  get_rule-put_rule tz.end (replicate 22 0 ++ rest) end,
)

abbrev pub OffsetFits : ℤ → Type 0
OffsetFits z = (pos_part z < 2 ^ 15) × (neg_part z ≤ 2 ^ 15)

offset_bytes :
    (z : ℤ) → OffsetFits z → of_u16 (to_u16 z % 256 + 256 * (to_u16 z / 256 % 256 + 256 * 0)) ≡ z
offset_bytes z h = rw (half_bytes (to_u16 z) (to_u16-lt z)) (of_u16-to_u16 z h.0 h.1)

get_offsets-put_offsets :
    (os : List ℤ) (rest : List ℕ)
    → All OffsetFits os
    → get_offsets (length os) (put_offsets os ++ rest) ≡ os
get_offsets-put_offsets [] rest h = refl
get_offsets-put_offsets (o ∷ os) rest h =
    cc (offset_bytes o h.0, get_offsets-put_offsets os rest h.1)

offsets_valid-OffsetFits : (os : List ℤ) → offsets_allowed os ≡ true → All OffsetFits os
unfolding offsets_allowed
offsets_valid-OffsetFits [] h = _
offsets_valid-OffsetFits (o ∷ os) h = ground (arith, offsets_valid-OffsetFits os)

-- The settings with six offsets.
abbrev pub with_offsets : Settings → ℤ → ℤ → ℤ → ℤ → ℤ → ℤ → Settings
with_offsets p a b c d e f = record p { offsets = a ∷ b ∷ c ∷ d ∷ e ∷ f ∷ [] }

pub get_prayer-put_place :
    (revision : ℕ) (p : Settings) (a b c d e f : ℤ) (rest : List ℕ)
    → p.latitude < 2 ^ 64
    → p.longitude < 2 ^ 64
    → p.method < 256
    → p.high_latitude < 256
    → All OffsetFits (a ∷ b ∷ c ∷ d ∷ e ∷ f ∷ [])
    → let q = with_offsets p a b c d e f in
      get_prayer
        (put_place revision q ++ (put_offsets q.offsets ++ (enabled_bits q.enabled ∷ rest)))
      ≡ q
unfolding get_prayer
get_prayer-put_place revision p a b c d e f rest lat long method rule fits = ground (
  arith,
  double_word_bytes p.latitude lat,
  double_word_bytes p.longitude long,
  offset_bytes a fits.0,
  offset_bytes b fits.1.0,
  offset_bytes c fits.1.1.0,
  offset_bytes d fits.1.1.1.0,
  offset_bytes e fits.1.1.1.1.0,
  offset_bytes f fits.1.1.1.1.1.0,
  enabled_of-enabled_bits p.enabled,
)

-- A value that the record has room for: a revision from 1 below 2^32, valid settings, and doubles and
-- offsets of the source's types.
pub record IsRecordable (v : SavedSettings) : Type 0 where
  pub positive : 0 < v.revision
  pub bounded : v.revision < u32_mod
  pub valid : valid_device_settings v.value ≡ true
  pub latitude_fits : v.value.prayer.latitude < 2 ^ 64
  pub longitude_fits : v.value.prayer.longitude < 2 ^ 64
  pub six_offsets : length v.value.prayer.offsets ≡ 6

pub get_settings_parts :
    (r : List ℕ) (v : SavedSettings)
    → read_u32 r 4 ≡ v.revision
    → get_prayer r ≡ v.value.prayer
    → get_zone (take (get_or r 41 0) (drop 42 r)) (drop 96 (drop 42 r)) ≡ v.value.timezone
    → get_or r 40 0 ≡ v.value.volume
    → get_settings r ≡ v
unfolding get_settings
get_settings_parts r v revision prayer zone volume = cc

abbrev pub with_prayer : SavedSettings → Settings → SavedSettings
with_prayer v p = record v { value = record (v.value) { prayer = p } }

-- What validity says of the parts that the record stores in bytes.
pub record Fits (v : SavedSettings) : Type 0 where
  pub method_fits : v.value.prayer.method < 256
  pub rule_fits : v.value.prayer.high_latitude < 256
  pub offsets_fit : All OffsetFits v.value.prayer.offsets
  pub volume_fits : v.value.volume < 256
  pub name_fits : length v.value.timezone.name ≤ 96
  pub standard_fits : IsInt32 v.value.timezone.standard_offset
  pub daylight_fits : IsInt32 v.value.timezone.daylight_offset
  pub start_fits : RuleFits v.value.timezone.start
  pub end_fits : RuleFits v.value.timezone.end

-- Of nine tests, the five that are used.
five_of_nine :
    (a b c d e f g h i : Bool)
    → (a && b && c && d && e && f && g && h && i) ≡ true
    → (b ≡ true) × (d ≡ true) × (e ≡ true) × (f ≡ true) × (g ≡ true)
five_of_nine a b c d e f g h i t = ground (arith, t)

offset_ok-IsInt32 : (z : ℤ) → offset_ok z ≡ true → IsInt32 z
offset_ok-IsInt32 z h = ground arith

valid_timezone_parts :
    (tz : Timezone)
    → valid_timezone tz ≡ true
    → (length tz.name ≤ 96)
      × IsInt32 tz.standard_offset
      × IsInt32 tz.daylight_offset
      × (valid_rule tz.start ≡ true)
      × (valid_rule tz.end ≡ true)
unfolding valid_timezone
valid_timezone_parts tz h =
    let no_dst = tz.start.type == 0 in
    let facts =
      five_of_nine (not (length tz.name == 0)) (leb (length tz.name) 96) (printable tz.name)
        (offset_ok tz.standard_offset) (offset_ok tz.daylight_offset) (valid_rule tz.start)
        (valid_rule tz.end) (bool_eq no_dst (tz.end.type == 0))
        (not no_dst || eq_ℤ tz.daylight_offset (pos 0)) h in
    (
      ground (arith, facts.0),
      offset_ok-IsInt32 tz.standard_offset facts.1,
      offset_ok-IsInt32 tz.daylight_offset facts.2,
      facts.3,
      facts.4,
    )

valid_settings_parts :
    (s : Settings)
    → valid_settings s ≡ true
    → (s.method < 256) × (s.high_latitude < 256) × (offsets_allowed s.offsets ≡ true)
unfolding valid_settings
valid_settings_parts s h = ground (arith, offsets_valid-allowed s.offsets _ h)

valid_device_settings_parts :
    (s : DeviceSettings)
    → valid_device_settings s ≡ true
    → (valid_settings s.prayer ≡ true) × (valid_timezone s.timezone ≡ true) × (s.volume < 256)
unfolding valid_device_settings
valid_device_settings_parts s h = ground arith

pub IsRecordable-Fits : (v : SavedSettings) → IsRecordable v → Fits v
IsRecordable-Fits v ok =
    let parts = valid_device_settings_parts v.value ok.valid in
    let prayer = valid_settings_parts v.value.prayer parts.0 in
    let zone = valid_timezone_parts v.value.timezone parts.1 in
    record {
      method_fits = prayer.0;
      rule_fits = prayer.1;
      offsets_fit = offsets_valid-OffsetFits v.value.prayer.offsets prayer.2;
      volume_fits = parts.2;
      name_fits = zone.0;
      standard_fits = zone.1;
      daylight_fits = zone.2;
      start_fits = valid_rule-RuleFits v.value.timezone.start zone.3;
      end_fits = valid_rule-RuleFits v.value.timezone.end zone.4;
    }
