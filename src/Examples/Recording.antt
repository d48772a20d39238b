-- ===== src/Examples/Recording.antt =====
-- The records of the settings and of the name.
use openathan.Base.{◌≡◌, refl, some, [], ◌∷◌, arith}
use openathan.Settings.{SavedSettings, valid_device_settings}
use openathan.Settings.Record.{encode_settings, decode_settings}
use openathan.Settings.Record.Fields.{IsRecordable}
use openathan.Settings.Record.RoundTrip.{decode_settings-encode_settings}
use openathan.Double.{is_nan}
use openathan.SpeakerName.{SavedSpeakerName}
use openathan.Examples.Configuring.{at_volume}

abbrev kept : SavedSettings
kept = record { revision = 300; value = at_volume 55 }

kept-IsRecordable : IsRecordable kept
unfolding valid_device_settings is_nan
kept-IsRecordable = record {
  positive = omega arith;
  bounded = omega arith;
  valid = refl;
  latitude_fits = omega arith;
  longitude_fits = omega arith;
  six_offsets = refl;
}

decode_settings-encode_settings_example : decode_settings (encode_settings kept) ≡ some kept
decode_settings-encode_settings_example = decode_settings-encode_settings kept kept-IsRecordable

abbrev named : SavedSpeakerName
named = record { revision = 2; name = 72 ∷ 0xC3 ∷ 0xA9 ∷ [] }
