-- ===== src/Scheduler/Valid.antt =====
-- `valid_settings` of lib/openathan-core/src/scheduler.cpp, and `Settings{}` of scheduler.h.
use openathan.Base.{
  ℤ, pos, negsuc, Bool, true, false, ◌&&◌, List, [], ◌∷◌, ltb, leb, leb_ℤ, replicate,
}
use openathan.Double.{is_finite, abs_le_90, abs_le_180}
use openathan.Scheduler.{Settings}

-- The loop over the offsets, with the verdict so far.
unfoldable pub offsets_valid : Bool → List ℤ → Bool
offsets_valid valid [] = valid
offsets_valid valid (offset ∷ rest) =
    offsets_valid (valid && leb_ℤ (negsuc 119) offset && leb_ℤ offset (pos 120)) rest

unfoldable pub valid_settings : Settings → Bool
unfolding offsets_valid is_finite abs_le_90 abs_le_180
valid_settings s =
    offsets_valid
      (is_finite s.latitude
        && is_finite s.longitude
        && abs_le_90 s.latitude
        && abs_le_180 s.longitude
        && ltb s.method 12
        && leb s.high_latitude 3)
      s.offsets

-- `Settings settings_;`: Muslim World League, automatic high-latitude rule, every prayer enabled.
abbrev pub default_settings : Settings
default_settings = record {
  latitude = 0;
  longitude = 0;
  method = 0;
  hanafi = false;
  high_latitude = 3;
  offsets = replicate 6 (pos 0);
  enabled = record {
    of_fajr = true;
    of_dhuhr = true;
    of_asr = true;
    of_maghrib = true;
    of_isha = true;
  };
}
