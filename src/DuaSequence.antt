-- ===== src/DuaSequence.antt =====
-- `DuaSequence` of lib/openathan-core/src/dua.cpp and include/openathan/dua.h: a backend of playback
-- that follows an Athan, after a pause, with a du'a. It is itself a `Playback`, over its members and
-- the state of the backend behind it; a backend that was never set is `none`.
pub mod Counted
pub mod Once
use openathan.Base.{
  ℕ, ◌+◌, ◌-◌, ◌%◌, ◌^◌, Bool, true, false, not, ◌&&◌, ◌||◌, Option, none, some, List, ltb, ◌==◌,
  if◌then◌else◌, is_some,
}
use openathan.Playback.{
  Track, PlaybackSource, PlaybackOutcome, no_outcome, completed, cancelled, PlaybackCompletion,
  no_completion, StreamState, Playback,
}

pub data Phase : Type 0 where
  idle athan pause dua : Phase

-- The members. `backend` is the state of the backend that `backend_` points to.
pub record Sequence (P : Type 0) : Type 0 where
  pub backend : Option P
  pub phase : Phase
  pub enabled : Bool
  pub has_failed : Bool
  pub epoch : ℕ
  pub last_tick : ℕ
  pub pause_at : ℕ

-- The member initialisers.
abbrev pub initial_sequence : {P : Type 0} → Sequence P
initial_sequence = record {
  backend = none;
  phase = idle;
  enabled = false;
  has_failed = false;
  epoch = 0;
  last_tick = 0;
  pause_at = 0;
}

abbrev pub is_phase : Phase → Phase → Bool
is_phase idle idle = true
is_phase athan athan = true
is_phase pause pause = true
is_phase dua dua = true
is_phase _ _ = false

abbrev pub is_none : PlaybackOutcome → Bool
is_none no_outcome = true
is_none _ = false

abbrev pub is_completed : PlaybackOutcome → Bool
is_completed completed = true
is_completed _ = false

abbrev pub is_failed : PlaybackOutcome → Bool
is_failed PlaybackOutcome.failed = true
is_failed _ = false

-- `volume && *volume`.
abbrev pub audible : Option ℕ → Bool
audible none = false
audible (some v) = not (v == 0)

-- `volume && !*volume`.
abbrev pub muted : Option ℕ → Bool
muted none = false
muted (some v) = v == 0

module _ {P : Type 0} (inner : Playback P) where
  abbrev pub stop_backend : Option P → Option P
  stop_backend none = none
  stop_backend (some p) = some (inner.stop p)

  unfoldable pub cancel_followup : Sequence P → Sequence P
  cancel_followup q = record q {
    backend = if is_phase q.phase dua then stop_backend q.backend else q.backend;
    phase = idle;
  }

  unfoldable pub set_enabled : Sequence P → Bool → Sequence P
  unfolding cancel_followup
  set_enabled q true = record q { enabled = true }
  set_enabled q false = cancel_followup (record q { enabled = false })

  unfoldable pub stop : Sequence P → Sequence P
  stop q = record q { backend = stop_backend q.backend; phase = idle }

  -- `start` after its first test and its call of `cancel_followup`.
  abbrev start_on : Sequence P → Track → Option P → Bool × Sequence P
  start_on q track none = (false, record q { has_failed = false })
  start_on q track (some p) =
      let begun = inner.start track p in
      let here : Sequence P = record q { has_failed = false; backend = some (begun.1) } in
      let armed = q.enabled && inner.dua_ready begun.1 && audible (inner.volume_percent begun.1) in
      if not begun.0 then (false, here) else (
        true,
        record here { epoch = inner.playback_epoch begun.1; phase = if armed then athan else idle },
      )

  unfoldable pub start : Sequence P → Track → Bool × Sequence P
  unfolding cancel_followup
  start q Track.dua = (false, q)
  start q track = start_on (cancel_followup q) track (cancel_followup q).backend

  -- `tick` in the pause, once nothing speaks against the du'a.
  abbrev after_pause : Sequence P → P → ℕ → Sequence P
  after_pause q p now =
      let begun = inner.start Track.dua p in
      let gives_up : Sequence P = record q { has_failed = true; phase = idle } in
      if ltb ((now + 2 ^ 64 - q.pause_at) % 2 ^ 64) 2000
      then q
      else if not (is_some (inner.volume_percent p))
          || not (inner.ready p)
          || not (inner.dua_ready p)
      then gives_up
      else if not begun.0
      then record gives_up { backend = some (begun.1) }
      else record q { backend = some (begun.1); epoch = inner.playback_epoch begun.1; phase = dua }

  -- `tick` with the track of this sequence still playing or just over.
  abbrev after_track : Sequence P → PlaybackCompletion → ℕ → Sequence P
  after_track q done now =
      if not (done.epoch == q.epoch) || is_none done.outcome
      then q
      else if not (is_completed done.outcome)
      then record q { has_failed = is_failed done.outcome; phase = idle }
      else if is_phase q.phase athan
      then record q { phase = pause; pause_at = now }
      else record q { phase = idle }

  -- `tick` past its first return.
  abbrev tick_on : Sequence P → P → Bool → ℕ → Sequence P
  tick_on q p discontinuity now =
      let volume = inner.volume_percent p in
      let done = inner.completion p in
      if not (is_phase q.phase pause)
        && done.epoch == q.epoch
        && not (is_none done.outcome)
        && not (is_completed done.outcome)
      then record q { has_failed = is_failed done.outcome; phase = idle }
      else if discontinuity
          || not q.enabled
          || not (inner.healthy p)
          || muted volume
          || not (inner.playback_epoch p == q.epoch)
      then cancel_followup q
      else if is_phase q.phase pause
      then after_pause q p now
      else after_track q done now

  abbrev pub tick_from : Sequence P → Bool → ℕ → Option P → Sequence P
  tick_from q discontinuity now none = q
  tick_from q discontinuity now (some p) =
      if is_phase q.phase idle then q else tick_on q p discontinuity now

  unfoldable pub tick : Sequence P → ℕ → Sequence P
  unfolding cancel_followup
  tick q now =
      let discontinuity =
        ltb now q.last_tick || (not (q.last_tick == 0) && ltb 3000 (now - q.last_tick)) in
      tick_from (record q { last_tick = now }) discontinuity now q.backend

  unfoldable pub request_volume_percent : Sequence P → ℕ → Bool × Sequence P
  unfolding cancel_followup
  request_volume_percent q percent =
      let q' = if percent == 0 then cancel_followup q else q in
      elim q'.backend [
        | none ↦ (false, q')
        | some p ↦ (
          (inner.request_volume_percent percent p).0,
          record q' { backend = some ((inner.request_volume_percent percent p).1) },
        )
      ]

  unfoldable pub start_stream : Sequence P → List ℕ → Bool × Sequence P
  start_stream q url = elim q.backend [
    | none ↦ (false, q)
    | some p ↦
        if is_phase q.phase idle
        then (
          (inner.start_stream url p).0,
          record q { backend = some ((inner.start_stream url p).1) },
        )
        else (false, q)
  ]

  -- A query of the backend, with its answer where there is none.
  abbrev ask : {A : Type 0} → A → (P → A) → Sequence P → A
  ask absent query q = elim q.backend [ none ↦ absent | some p ↦ query p ]

  unfoldable pub busy : Sequence P → Bool
  busy q = not (is_phase q.phase idle) || ask false inner.busy q

  unfoldable pub source : Sequence P → PlaybackSource
  source q =
      if is_phase q.phase pause || is_phase q.phase dua
      then PlaybackSource.dua_source
      else ask PlaybackSource.no_source inner.source q

  -- The facade that the scheduler is given.
  unfoldable pub dua_playback : Playback (Sequence P)
  unfolding start stop busy source start_stream request_volume_percent
  dua_playback = record {
    ready = ask false inner.ready;
    healthy = ask false inner.healthy;
    playing = ask false inner.playing;
    busy = busy;
    completion = ask no_completion inner.completion;
    dua_supported = ask false inner.dua_supported;
    dua_ready = ask false inner.dua_ready;
    start = λ track q. start q track;
    stop = stop;
    stream_supported = ask false inner.stream_supported;
    playback_epoch = ask 0 inner.playback_epoch;
    source = source;
    stream_state = ask StreamState.idle inner.stream_state;
    start_stream = λ url q. start_stream q url;
    volume_percent = ask none inner.volume_percent;
    request_volume_percent = λ percent q. request_volume_percent q percent;
  }
