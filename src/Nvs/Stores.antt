-- ===== src/Nvs/Stores.antt =====
-- The seven stores: what each keeps, and the class behind a handle that is open.
use openathan.Base.{true, not, ◌&&◌, ◌||◌, ltb, ◌==◌}
use openathan.Nvs.{
  Nvs, Codec, opened_store, load_opened, save, scheduler, settings, lights, time_format, dua,
  speaker_name, display,
}
use openathan.Storage.{Store}
use openathan.Scheduler.{DurableState, initial_state}
use openathan.StateRecord.{encode_state, decode_state}
use openathan.Settings.{SavedSettings, valid_device_settings}
use openathan.Settings.Record.{encode_settings, decode_settings}
use openathan.Lights.{SavedLights}
use openathan.Lights.Record.{encode_lights, decode_lights}
use openathan.TimeFormat.{SavedTimeFormat}
use openathan.TimeFormat.Record.{encode_time_format, decode_time_format}
use openathan.DuaPreference.{SavedDua}
use openathan.DuaPreference.Record.{encode_dua, decode_dua}
use openathan.SpeakerName.{SavedSpeakerName, normalize_speaker_name}
use openathan.SpeakerName.Service.{is_normal}
use openathan.SpeakerName.Record.{encode_speaker_name, decode_speaker_name}
use openathan.Display.{SavedDisplay}
use openathan.Display.Record.{encode_display, decode_display}

abbrev pub state_codec : Codec DurableState
state_codec = record {
  key = scheduler;
  size = 36;
  accepts = λ v. true;
  encode = encode_state;
  decode = decode_state;
}

abbrev pub settings_codec : Codec SavedSettings
settings_codec = record {
  key = settings;
  size = 192;
  accepts = λ v. not (v.revision == 0) && valid_device_settings v.value;
  encode = encode_settings;
  decode = decode_settings;
}

abbrev pub light_codec : Codec SavedLights
light_codec = record {
  key = lights;
  size = 16;
  accepts = λ v. not (v.revision == 0) && not (ltb 100 v.value.brightness_percent);
  encode = encode_lights;
  decode = decode_lights;
}

abbrev pub time_format_codec : Codec SavedTimeFormat
time_format_codec = record {
  key = time_format;
  size = 16;
  accepts = λ v. not (v.revision == 0) && not (not (v.hours == 12) && not (v.hours == 24));
  encode = encode_time_format;
  decode = decode_time_format;
}

abbrev pub dua_codec : Codec SavedDua
dua_codec = record {
  key = dua;
  size = 16;
  accepts = λ v. not (v.revision == 0);
  encode = encode_dua;
  decode = decode_dua;
}

abbrev pub speaker_name_codec : Codec SavedSpeakerName
speaker_name_codec = record {
  key = speaker_name;
  size = 144;
  accepts = λ v. not (v.revision == 0) && is_normal v.name (normalize_speaker_name v.name);
  encode = encode_speaker_name;
  decode = decode_speaker_name;
}

abbrev pub display_codec : Codec SavedDisplay
display_codec = record {
  key = display;
  size = 16;
  accepts = λ v.
      not (v.revision == 0) && not (ltb v.brightness_percent 1 || ltb 100 v.brightness_percent);
  encode = encode_display;
  decode = decode_display;
}

module _ {M : Type 0} (nvs : Nvs M) where
  -- Its `load` resets the out-parameter first.
  abbrev pub nvs_state_store : Store M DurableState
  nvs_state_store = record {
    load = λ d m. load_opened nvs state_codec initial_state m;
    save = save nvs state_codec true;
  }

  abbrev pub nvs_settings_store : Store M SavedSettings
  nvs_settings_store = opened_store nvs settings_codec

  abbrev pub nvs_light_store : Store M SavedLights
  nvs_light_store = opened_store nvs light_codec

  abbrev pub nvs_time_format_store : Store M SavedTimeFormat
  nvs_time_format_store = opened_store nvs time_format_codec

  abbrev pub nvs_dua_store : Store M SavedDua
  nvs_dua_store = opened_store nvs dua_codec

  abbrev pub nvs_speaker_name_store : Store M SavedSpeakerName
  nvs_speaker_name_store = opened_store nvs speaker_name_codec

  abbrev pub nvs_display_store : Store M SavedDisplay
  nvs_display_store = opened_store nvs display_codec
