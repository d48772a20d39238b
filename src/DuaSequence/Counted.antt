-- ===== src/DuaSequence/Counted.antt =====
-- A backend that counts the calls `start(Track::DUA)` of the sequence above it.
use openathan.Base.{ℕ, ◌+◌, ◌-◌, Option, none, some}
use openathan.Playback.{Track, Playback}
use openathan.DuaSequence.{Sequence}

abbrev pub dua_calls : Track → ℕ
dua_calls Track.dua = 1
dua_calls _ = 0

-- A backend with the number of its calls `start(Track::DUA)`, refused ones included.
abbrev pub counted : {P : Type 0} → Playback P → Playback (P × ℕ)
counted inner = record {
  ready = λ x. inner.ready x.0;
  healthy = λ x. inner.healthy x.0;
  playing = λ x. inner.playing x.0;
  busy = λ x. inner.busy x.0;
  completion = λ x. inner.completion x.0;
  dua_supported = λ x. inner.dua_supported x.0;
  dua_ready = λ x. inner.dua_ready x.0;
  start = λ track x.
      ((inner.start track (x.0)).0, ((inner.start track (x.0)).1, x.1 + dua_calls track));
  stop = λ x. (inner.stop (x.0), x.1);
  stream_supported = λ x. inner.stream_supported x.0;
  playback_epoch = λ x. inner.playback_epoch x.0;
  source = λ x. inner.source x.0;
  stream_state = λ x. inner.stream_state x.0;
  start_stream =
      λ url x. ((inner.start_stream url (x.0)).0, ((inner.start_stream url (x.0)).1, x.1));
  volume_percent = λ x. inner.volume_percent x.0;
  request_volume_percent = λ percent x. (
    (inner.request_volume_percent percent (x.0)).0,
    ((inner.request_volume_percent percent (x.0)).1, x.1),
  );
}

abbrev pub tally : {P : Type 0} → Option (P × ℕ) → ℕ
tally none = 0
tally (some x) = x.1

-- The calls `start(Track::DUA)` between two states of the sequence.
abbrev pub asked : {P : Type 0} → Sequence (P × ℕ) → Sequence (P × ℕ) → ℕ
asked q r = tally r.backend - tally q.backend
