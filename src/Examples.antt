-- ===== src/Examples.antt =====
-- Tests of the model on concrete inputs, and each theorem at one. The media, the backend and the
-- calculator below are as simple as their interfaces allow.
mod Scheduling
mod Preferring
mod Sequencing
mod Lighting
mod Media
mod Configuring
mod Naming
mod Calculating
mod Recording
mod Storing
mod Adapting
mod Serving
mod Timing
mod Showing
use openathan.Base.{◌≡◌, ◌⊎◌, refl, Bool, true, false, Option, none, some, List, [], ◌∷◌, length}
use openathan.Storage.{LoadResult, Store, IsDurable, IsAtomic}
use openathan.Playback.{Track, Playback, no_source, idle, no_completion, completed}

-- A medium with room for one value, on which every write succeeds.
abbrev pub load_cell : {V : Type 0} → V → Option V → LoadResult × V
load_cell d none = (LoadResult.empty, d)
load_cell d (some v) = (LoadResult.loaded, v)

abbrev pub cell : {V : Type 0} → Store (Option V) V
cell = record { load = load_cell; save = λ v s. (true, some v) }

pub cell-IsDurable : {V : Type 0} → IsDurable (cell {V = V})
cell-IsDurable v d s h = refl

pub cell-IsAtomic : {V : Type 0} → IsAtomic (cell {V = V})
cell-IsAtomic v d s h = cc

-- A backend that is ready and logs what it is asked to play.
abbrev pub speaker : Playback (List Track)
speaker = record {
  ready = λ p. true;
  healthy = λ p. true;
  playing = λ p. false;
  busy = λ p. false;
  completion = λ p. no_completion;
  dua_supported = λ p. true;
  dua_ready = λ p. true;
  start = λ t p. (true, t ∷ p);
  stop = λ p. p;
  stream_supported = λ p. false;
  playback_epoch = λ p. 0;
  source = λ p. no_source;
  stream_state = λ p. idle;
  start_stream = λ url p. (false, p);
  volume_percent = λ p. none;
  request_volume_percent = λ v p. (false, p);
}

-- A backend whose first track is always over, and whose epoch counts its tracks.
abbrev pub desk : Playback (List Track)
desk = record {
  ready = λ p. true;
  healthy = λ p. true;
  playing = λ p. false;
  busy = λ p. false;
  completion = λ p. record { epoch = 1; outcome = completed };
  dua_supported = λ p. true;
  dua_ready = λ p. true;
  start = λ t p. (true, t ∷ p);
  stop = λ p. [];
  stream_supported = λ p. false;
  playback_epoch = λ p. length p;
  source = λ p. no_source;
  stream_state = λ p. idle;
  start_stream = λ url p. (false, p);
  volume_percent = λ p. some 50;
  request_volume_percent = λ v p. (true, p);
}
