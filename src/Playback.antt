-- ===== src/Playback.antt =====
-- lib/openathan-core/include/openathan/playback.h and the tracks of audio_image.h: the playback
-- interface, over a backend's own state `P`. A query is a function of that state; a request returns
-- whether it was accepted and the state after it. `set_dua_data`, which binds bytes to a backend, is
-- left out.
use openathan.Base.{ℕ, Bool, Option, List}

-- `enum class Track : uint32_t { NORMAL = 1, FAJR = 2, DUA = 3 }`.
pub data Track : Type 0 where
  normal fajr dua : Track

pub data PlaybackSource : Type 0 where
  no_source athan quran dua_source : PlaybackSource

pub data PlaybackOutcome : Type 0 where
  no_outcome completed cancelled failed : PlaybackOutcome

pub record PlaybackCompletion : Type 0 where
  pub epoch : ℕ
  pub outcome : PlaybackOutcome

-- `PlaybackCompletion{}`.
abbrev pub no_completion : PlaybackCompletion
no_completion = record { epoch = 0; outcome = no_outcome }

pub data StreamState : Type 0 where
  idle loading playing_stream stream_error : StreamState

-- A URL is a list of bytes.
pub record Playback (P : Type 0) : Type 0 where
  pub ready : P → Bool
  pub healthy : P → Bool
  pub playing : P → Bool
  pub busy : P → Bool
  pub completion : P → PlaybackCompletion
  pub dua_supported : P → Bool
  pub dua_ready : P → Bool
  pub start : Track → P → Bool × P
  pub stop : P → P
  pub stream_supported : P → Bool
  pub playback_epoch : P → ℕ
  pub source : P → PlaybackSource
  pub stream_state : P → StreamState
  pub start_stream : List ℕ → P → Bool × P
  pub volume_percent : P → Option ℕ
  pub request_volume_percent : ℕ → P → Bool × P
