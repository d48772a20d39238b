-- ===== src/Nvs/Services.antt =====
-- The preference services over their NVS stores: what a power cut after any updates leaves.
use openathan.Base.{ℕ, ◌<◌, ◌≡◌, refl, Bool, true, List, All, length, Option-cases, inl, inr}
use openathan.Bytes.{u32_mod}
use openathan.Storage.Laws.{Service, run, begin-run_on}
use openathan.Nvs.{Nvs, Commits}
use openathan.Nvs.Durable.{opened_store-IsDurableOn}
use openathan.Nvs.Stores.{
  state_codec, light_codec, time_format_codec, dua_codec, speaker_name_codec, display_codec,
  nvs_state_store, nvs_light_store, nvs_time_format_store, nvs_dua_store, nvs_speaker_name_store,
  nvs_display_store,
}
use openathan.Display.Record.{encode_display, decode_display-encode_display}
use openathan.Display.Service.{display_service}
use openathan.Lights.Record.{decode_lights-encode_lights, encode_lights}
use openathan.Lights.Service.{lights_service}
use openathan.DuaPreference.Record.{decode_dua-encode_dua, encode_dua}
use openathan.DuaPreference.Service.{dua_service}
use openathan.TimeFormat.Record.{decode_time_format-encode_time_format, encode_time_format}
use openathan.TimeFormat.Service.{time_format_service}
use openathan.SpeakerName.Text.{length-normalize_speaker_name}
use openathan.SpeakerName.Record.RoundTrip.{
  decode_speaker_name-encode_speaker_name, length-encode_speaker_name,
}
use openathan.SpeakerName.Service.{speaker_name_service}
use openathan.Display
use openathan.Display.Record as DisplayRecord
use openathan.Lights
use openathan.Lights.Record as LightRecord
use openathan.DuaPreference
use openathan.DuaPreference.Record as DuaRecord
use openathan.TimeFormat
use openathan.TimeFormat.Record as TimeFormatRecord
use openathan.StateRecord
use openathan.StateRecord.RoundTrip
use openathan.SpeakerName.Service as NameService
use openathan.SpeakerName.{SavedSpeakerName}
use openathan.Storage.{LoadResult}
use openathan.Scheduler.{DurableState, initial_state}

length-encode_state : (v : DurableState) → length (StateRecord.encode_state v) ≡ 36
unfolding StateRecord.encode_state
length-encode_state v = elim (Option-cases v.skip) [ inl e ↦ rw e refl | inr (k, e) ↦ rw e refl ]

length-encode_lights : (v : Lights.SavedLights) → length (encode_lights v) ≡ 16
unfolding encode_lights
length-encode_lights v = refl

length-encode_display : (v : Display.SavedDisplay) → length (encode_display v) ≡ 16
unfolding encode_display
length-encode_display v = refl

length-encode_dua : (v : DuaPreference.SavedDua) → length (encode_dua v) ≡ 16
unfolding encode_dua
length-encode_dua v = refl

length-encode_time_format : (v : TimeFormat.SavedTimeFormat) → length (encode_time_format v) ≡ 16
unfolding encode_time_format
length-encode_time_format v = refl

module _ {M : Type 0} (nvs : Nvs M) where
  -- A scheduler's state with marks near the supported dates and no skip that its mark has reached,
  -- once saved, is what the next load of the NVS record finds, if a committed blob is found again.
  pub nvs_state_store_keeps :
      (v d : DurableState) (m : M)
      → Commits nvs
      → RoundTrip.IsStorable v
      → ((nvs_state_store nvs).save v m).0 ≡ true
      → (nvs_state_store nvs).load d ((nvs_state_store nvs).save v m).1 ≡ (LoadResult.loaded, v)
  nvs_state_store_keeps v d m commits ok saved =
      opened_store-IsDurableOn nvs state_codec RoundTrip.IsStorable commits
        (λ x fits. RoundTrip.decode_state-encode_state x fits) (λ x fits. length-encode_state x) v
        initial_state m ok saved

  abbrev names : Service M SavedSpeakerName (List ℕ × ℕ)
  names = speaker_name_service (nvs_speaker_name_store nvs)

  -- After any updates of the speaker name with 32-bit revisions that leave their service writable, a
  -- start from the NVS record restores exactly what is in memory, if a committed blob is found again.
  pub begin-run_speaker_name_nvs :
      (m : M) (calls : List (List ℕ × ℕ))
      → Commits nvs
      → All (λ c. c.1 < u32_mod) calls
      → (run names (names.begin m) m calls).0.writable ≡ true
      → names.begin (run names (names.begin m) m calls).1 ≡ (run names (names.begin m) m calls).0
  begin-run_speaker_name_nvs m calls commits bounded able =
      begin-run_on names m calls
        (opened_store-IsDurableOn nvs speaker_name_codec NameService.IsStorable commits
          decode_speaker_name-encode_speaker_name
          (λ v ok. length-encode_speaker_name v (length-normalize_speaker_name v.name v.name ok.2)))
        bounded able

  abbrev lighting : Service M Lights.SavedLights (Lights.LightSettings × ℕ)
  lighting = lights_service (nvs_light_store nvs)

  -- After any updates of the lights with 32-bit revisions that leave their service writable, a
  -- start from the NVS record restores exactly what is in memory, if a committed blob is found again.
  pub begin-run_lights_nvs :
      (m : M) (calls : List (Lights.LightSettings × ℕ))
      → Commits nvs
      → All (λ c. c.1 < u32_mod) calls
      → (run lighting (lighting.begin m) m calls).0.writable ≡ true
      → lighting.begin (run lighting (lighting.begin m) m calls).1
        ≡ (run lighting (lighting.begin m) m calls).0
  begin-run_lights_nvs m calls commits bounded able =
      begin-run_on lighting m calls
        (opened_store-IsDurableOn nvs light_codec LightRecord.IsStorable commits
          decode_lights-encode_lights (λ v ok. length-encode_lights v))
        bounded able

  abbrev brightness : Service M Display.SavedDisplay (ℕ × ℕ)
  brightness = display_service (nvs_display_store nvs)

  -- After any updates of the display brightness with 32-bit revisions that leave their service writable, a
  -- start from the NVS record restores exactly what is in memory, if a committed blob is found again.
  pub begin-run_display_nvs :
      (m : M) (calls : List (ℕ × ℕ))
      → Commits nvs
      → All (λ c. c.1 < u32_mod) calls
      → (run brightness (brightness.begin m) m calls).0.writable ≡ true
      → brightness.begin (run brightness (brightness.begin m) m calls).1
        ≡ (run brightness (brightness.begin m) m calls).0
  begin-run_display_nvs m calls commits bounded able =
      begin-run_on brightness m calls
        (opened_store-IsDurableOn nvs display_codec DisplayRecord.IsStorable commits
          decode_display-encode_display (λ v ok. length-encode_display v))
        bounded able

  abbrev following : Service M DuaPreference.SavedDua (Bool × ℕ)
  following = dua_service (nvs_dua_store nvs)

  -- After any updates of the du'a preference with 32-bit revisions that leave their service writable, a
  -- start from the NVS record restores exactly what is in memory, if a committed blob is found again.
  pub begin-run_dua_nvs :
      (m : M) (calls : List (Bool × ℕ))
      → Commits nvs
      → All (λ c. c.1 < u32_mod) calls
      → (run following (following.begin m) m calls).0.writable ≡ true
      → following.begin (run following (following.begin m) m calls).1
        ≡ (run following (following.begin m) m calls).0
  begin-run_dua_nvs m calls commits bounded able =
      begin-run_on following m calls
        (opened_store-IsDurableOn nvs dua_codec DuaRecord.IsStorable commits decode_dua-encode_dua
          (λ v ok. length-encode_dua v))
        bounded able

  abbrev hours : Service M TimeFormat.SavedTimeFormat (ℕ × ℕ)
  hours = time_format_service (nvs_time_format_store nvs)

  -- After any updates of the time format with 32-bit revisions that leave their service writable, a
  -- start from the NVS record restores exactly what is in memory, if a committed blob is found again.
  pub begin-run_time_format_nvs :
      (m : M) (calls : List (ℕ × ℕ))
      → Commits nvs
      → All (λ c. c.1 < u32_mod) calls
      → (run hours (hours.begin m) m calls).0.writable ≡ true
      → hours.begin (run hours (hours.begin m) m calls).1 ≡ (run hours (hours.begin m) m calls).0
  begin-run_time_format_nvs m calls commits bounded able =
      begin-run_on hours m calls
        (opened_store-IsDurableOn nvs time_format_codec TimeFormatRecord.IsStorable commits
          decode_time_format-encode_time_format (λ v ok. length-encode_time_format v))
        bounded able
