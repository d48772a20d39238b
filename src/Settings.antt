-- ===== src/Settings.antt =====
-- lib/openathan-core/src/settings.cpp and include/openathan/settings.h: the device's settings, what
-- makes them valid, and the service that keeps them.
pub mod Service
pub mod Settled
pub mod Record
use openathan.Base.{
  ℕ, ◌≡◌, ℤ, pos, negsuc, eq_ℤ, ltb_ℤ, leb_ℤ, Bool, true, false, bool_eq, not, ◌&&◌, ◌||◌, List, [],
  ◌∷◌, length, list_eq, ltb, leb, ◌==◌, if◌then◌else◌,
}
use openathan.Double.{double_eq}
use openathan.Scheduler.{Settings, PerPrayer}
use openathan.Scheduler.Valid.{valid_settings}

-- `type` is the number under `DstRuleType`, which a decoded record may set to any byte.
pub record DstRule : Type 0 where
  pub time_seconds : ℤ
  pub day : ℕ
  pub type : ℕ
  pub month : ℕ
  pub week : ℕ
  pub day_of_week : ℕ

-- A name is a list of bytes. Positive offsets are west of UTC.
pub record Timezone : Type 0 where
  pub name : List ℕ
  pub standard_offset : ℤ
  pub daylight_offset : ℤ
  pub start : DstRule
  pub end : DstRule

pub record DeviceSettings : Type 0 where
  pub prayer : Settings
  pub timezone : Timezone
  pub volume : ℕ

pub record SavedSettings : Type 0 where
  pub revision : ℕ
  pub value : DeviceSettings

abbrev pub timezone_name_size : ℕ
timezone_name_size = 96

-- `DstRule{}`.
abbrev pub no_rule : DstRule
no_rule = record { time_seconds = pos 0; day = 0; type = 0; month = 0; week = 0; day_of_week = 0 }

-- The defaulted `operator==` of each struct.
unfoldable pub rule_eq : DstRule → DstRule → Bool
rule_eq a b =
    eq_ℤ a.time_seconds b.time_seconds
    && a.day == b.day
    && a.type == b.type
    && a.month == b.month
    && a.week == b.week
    && a.day_of_week == b.day_of_week

unfoldable pub timezone_eq : Timezone → Timezone → Bool
unfolding rule_eq
timezone_eq a b =
    list_eq a.name b.name
    && eq_ℤ a.standard_offset b.standard_offset
    && eq_ℤ a.daylight_offset b.daylight_offset
    && rule_eq a.start b.start
    && rule_eq a.end b.end

offsets_eq : List ℤ → List ℤ → Bool
offsets_eq [] [] = true
offsets_eq (x ∷ xs) (y ∷ ys) = eq_ℤ x y && offsets_eq xs ys
offsets_eq _ _ = false

unfoldable pub settings_eq : Settings → Settings → Bool
unfolding double_eq offsets_eq
settings_eq a b =
    double_eq a.latitude b.latitude
    && double_eq a.longitude b.longitude
    && a.method == b.method
    && bool_eq a.hanafi b.hanafi
    && a.high_latitude == b.high_latitude
    && offsets_eq a.offsets b.offsets
    && bool_eq a.enabled.of_fajr b.enabled.of_fajr
    && bool_eq a.enabled.of_dhuhr b.enabled.of_dhuhr
    && bool_eq a.enabled.of_asr b.enabled.of_asr
    && bool_eq a.enabled.of_maghrib b.enabled.of_maghrib
    && bool_eq a.enabled.of_isha b.enabled.of_isha

unfoldable pub device_eq : DeviceSettings → DeviceSettings → Bool
unfolding settings_eq timezone_eq
device_eq a b =
    settings_eq a.prayer b.prayer && timezone_eq a.timezone b.timezone && a.volume == b.volume

unfoldable pub valid_rule : DstRule → Bool
unfolding rule_eq
valid_rule r =
    if ltb_ℤ r.time_seconds (negsuc 604_798) || ltb_ℤ (pos 604_799) r.time_seconds
    then false
    else if r.type == 0
    then rule_eq r no_rule
    else if r.type == 1
    then r.day == 0
      && leb 1 r.month
      && leb r.month 12
      && leb 1 r.week
      && leb r.week 5
      && leb r.day_of_week 6
    else if r.type == 2
    then leb 1 r.day && leb r.day 365 && r.month == 0 && r.week == 0 && r.day_of_week == 0
    else if r.type == 3
    then leb r.day 365 && r.month == 0 && r.week == 0 && r.day_of_week == 0
    else false

-- The loop over the characters.
unfoldable pub printable : List ℕ → Bool
printable [] = true
printable (c ∷ cs) = not (ltb c 33 || ltb 126 c) && printable cs

abbrev pub offset_ok : ℤ → Bool
offset_ok offset = leb_ℤ (negsuc 86_399) offset && leb_ℤ offset (pos 86_400)

unfoldable pub valid_timezone : Timezone → Bool
unfolding valid_rule printable
valid_timezone tz =
    let no_dst = tz.start.type == 0 in
    not (length tz.name == 0)
    && leb (length tz.name) timezone_name_size
    && printable tz.name
    && offset_ok tz.standard_offset
    && offset_ok tz.daylight_offset
    && valid_rule tz.start
    && valid_rule tz.end
    && bool_eq no_dst (tz.end.type == 0)
    && (not no_dst || eq_ℤ tz.daylight_offset (pos 0))

unfoldable pub valid_device_settings : DeviceSettings → Bool
unfolding valid_settings valid_timezone
valid_device_settings s = valid_settings s.prayer && valid_timezone s.timezone && leb s.volume 100
