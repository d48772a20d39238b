-- ===== src/DuaSequence/Once.antt =====
-- When `DuaSequence` asks its backend for the du'a: at most once for each accepted Athan, and only
-- after its pause.
use openathan.Base.{
  ℕ, ◌+◌, ◌-◌, ◌%◌, ◌^◌, ◌≤◌, ◌<◌, ◌≡◌, ◌≢◌, ◌⊎◌, refl, Bool, true, false, Option, none, some, List,
  arith,
}
use openathan.DuaSequence.Counted.{dua_calls, counted, tally, asked}
use openathan.Playback.{Track, Playback}
use openathan.DuaSequence.{
  Phase, idle, athan, pause, dua, Sequence, initial_sequence, muted, cancel_followup, set_enabled,
  stop, start, start_on, tick, tick_from, request_volume_percent, start_stream,
}

-- An Athan whose du'a is still to come.
abbrev pub pending : Phase → ℕ
pending idle = 0
pending athan = 1
pending pause = 1
pending dua = 0

abbrev pub one_if : Bool → ℕ
one_if true = 1
one_if false = 0

module _ {P : Type 0} (inner : Playback P) where
  pending-tick_from :
      (q : Sequence (P × ℕ)) (discontinuity : Bool) (now : ℕ) (o : Option (P × ℕ))
      → q.backend ≡ o
      → pending (tick_from (counted inner) q discontinuity now o).phase
          + (tally (tick_from (counted inner) q discontinuity now o).backend - tally o)
        ≤ pending q.phase
  unfolding cancel_followup
  pending-tick_from q discontinuity now none b = ground arith
  pending-tick_from q discontinuity now (some p) b = ground arith

  pending-start_on :
      (q : Sequence (P × ℕ)) (track : Track) (o : Option (P × ℕ))
      → q.backend ≡ o
      → q.phase ≡ idle
      → dua_calls track ≡ 0
      → pending (start_on (counted inner) q track o).1.phase
          + (tally (start_on (counted inner) q track o).1.backend - tally o)
        ≤ one_if (start_on (counted inner) q track o).0
  pending-start_on q track none b h k = ground arith
  pending-start_on q track (some p) b h k = ground arith

  pending-tick :
      (q : Sequence (P × ℕ)) (now : ℕ)
      → pending (tick (counted inner) q now).phase + asked q (tick (counted inner) q now)
        ≤ pending q.phase
  unfolding tick
  pending-tick q now = pending-tick_from (record q { last_tick = now }) _ now q.backend refl

  tally-cancel_followup :
      (q : Sequence (P × ℕ)) → tally (cancel_followup (counted inner) q).backend ≡ tally q.backend
  unfolding cancel_followup
  tally-cancel_followup q = ground arith

  -- The calls of `start`: the scheduler's, which never asks for the du'a itself.
  pending-start :
      (q : Sequence (P × ℕ)) (track : Track)
      → pending (start (counted inner) q track).1.phase + asked q (start (counted inner) q track).1
        ≤ one_if (start (counted inner) q track).0 + pending q.phase
  unfolding start cancel_followup
  pending-start q Track.dua = ground arith
  pending-start q Track.normal =
      let c = cancel_followup (counted inner) q in
      let t = tally-cancel_followup q in
      omega (arith, t, pending-start_on c Track.normal c.backend refl refl refl)
  pending-start q Track.fajr =
      let c = cancel_followup (counted inner) q in
      let t = tally-cancel_followup q in
      omega (arith, t, pending-start_on c Track.fajr c.backend refl refl refl)

  -- One call on the sequence; the numbers count the accepted Athans and the calls
  -- `start(Track::DUA)` that the backend gets. The backend changes by itself too, or is replaced.
  pub data Step (q : Sequence (P × ℕ)) : ℕ → ℕ → Sequence (P × ℕ) → Type 0 where
    starts :
        (track : Track)
        → Step q
            (one_if (start (counted inner) q track).0)
            (asked q (start (counted inner) q track).1)
            (start (counted inner) q track).1
    ticks : (now : ℕ) → Step q 0 (asked q (tick (counted inner) q now)) (tick (counted inner) q now)
    cancels :
        Step q 0 (asked q (cancel_followup (counted inner) q)) (cancel_followup (counted inner) q)
    enables :
        (on : Bool)
        → Step q 0 (asked q (set_enabled (counted inner) q on)) (set_enabled (counted inner) q on)
    stops : Step q 0 (asked q (stop (counted inner) q)) (stop (counted inner) q)
    sets_volume :
        (percent : ℕ)
        → Step q 0
            (asked q (request_volume_percent (counted inner) q percent).1)
            (request_volume_percent (counted inner) q percent).1
    streams :
        (url : List ℕ)
        → Step q 0
            (asked q (start_stream (counted inner) q url).1)
            (start_stream (counted inner) q url).1
    changes : (o : Option (P × ℕ)) → Step q 0 0 (record q { backend = o })

  pub data History (q : Sequence (P × ℕ)) : ℕ → ℕ → Sequence (P × ℕ) → Type 0 where
    begin : History q 0 0 q
    next :
        {r t : Sequence (P × ℕ)} {athans duas athans' duas' : ℕ}
        → History q athans duas r
        → Step r athans' duas' t
        → History q (athans + athans') (duas + duas') t

  Step-pending :
      {q r : Sequence (P × ℕ)} {athans duas : ℕ}
      → Step q athans duas r
      → pending r.phase + duas ≤ pending q.phase + athans
  unfolding cancel_followup set_enabled stop request_volume_percent start_stream
  Step-pending {q} (starts track) = omega (arith, pending-start q track)
  Step-pending {q} (ticks now) = omega (arith, pending-tick q now)
  Step-pending {q} cancels = omega (arith, tally-cancel_followup q)
  Step-pending {q} (enables true) = omega arith
  Step-pending {q} (enables false) =
      omega (arith, tally-cancel_followup (record q { enabled = false }))
  Step-pending {q} stops = ground arith
  Step-pending {q} (sets_volume percent) = ground arith
  Step-pending {q} (streams url) = ground arith
  Step-pending (changes o) = omega arith

  History-pending :
      {q r : Sequence (P × ℕ)} {athans duas : ℕ}
      → History q athans duas r
      → pending r.phase + duas ≤ pending q.phase + athans
  History-pending begin = omega arith
  History-pending (next h s) = omega (arith, History-pending h, Step-pending s)

  -- From the initial state, over any sequence of calls and changes of the backend, the sequence
  -- calls `start(Track::DUA)` on its backend no more often than Athans were accepted, calls that
  -- the backend refuses included.
  pub History-le :
      {r : Sequence (P × ℕ)} {athans duas : ℕ}
      → History initial_sequence athans duas r
      → duas ≤ athans
  History-le h = omega (arith, History-pending h)

  -- A tick that calls `start(Track::DUA)` at all does it once, with the backend as it found it, and
  -- in the pause only: with the sequence enabled and the backend healthy, ready, provided with the
  -- du'a, not muted and still at the epoch of the Athan; at most three seconds after the previous
  -- tick; and two seconds or more after the pause began, by the wrapping difference of the clock.
  pub tick_asks :
      (q : Sequence (P × ℕ)) (now : ℕ) (p : P) (n : ℕ)
      → q.backend ≡ some (p, n)
      → tally (tick (counted inner) q now).backend ≢ n
      → ((tick (counted inner) q now).backend ≡ some ((inner.start Track.dua p).1, n + 1))
        × (q.phase ≡ pause)
        × (q.enabled ≡ true)
        × (inner.healthy p ≡ true)
        × (inner.ready p ≡ true)
        × (inner.dua_ready p ≡ true)
        × (muted (inner.volume_percent p) ≡ false)
        × (inner.playback_epoch p ≡ q.epoch)
        × (q.last_tick ≤ now)
        × ((q.last_tick ≡ 0) ⊎ (now ≤ q.last_tick + 3000))
        × (2000 ≤ (now + 2 ^ 64 - q.pause_at) % 2 ^ 64)
  unfolding tick cancel_followup
  tick_asks q now p n b h = ground arith

  -- A tick that comes too early or too late after the previous one, that finds the sequence
  -- disabled, or the backend unhealthy, muted or at another epoch, leaves the sequence idle.
  pub tick_withdraws :
      (q : Sequence P) (now : ℕ) (p : P)
      → q.backend ≡ some p
      → (now < q.last_tick)
        ⊎ ((q.last_tick ≢ 0) × (q.last_tick + 3000 < now))
        ⊎ (q.enabled ≡ false)
        ⊎ (inner.healthy p ≡ false)
        ⊎ (muted (inner.volume_percent p) ≡ true)
        ⊎ (inner.playback_epoch p ≢ q.epoch)
      → (tick inner q now).phase ≡ idle
  unfolding tick cancel_followup
  tick_withdraws q now p b h = ground arith

  -- Under the same conditions a du'a that is playing, and that the backend has not reported as over,
  -- is stopped.
  pub tick_stops_dua :
      (q : Sequence P) (now : ℕ) (p : P)
      → q.backend ≡ some p
      → q.phase ≡ dua
      → (inner.completion p).epoch ≢ q.epoch
      → (now < q.last_tick)
        ⊎ ((q.last_tick ≢ 0) × (q.last_tick + 3000 < now))
        ⊎ (q.enabled ≡ false)
        ⊎ (inner.healthy p ≡ false)
        ⊎ (muted (inner.volume_percent p) ≡ true)
        ⊎ (inner.playback_epoch p ≢ q.epoch)
      → (tick inner q now).backend ≡ some (inner.stop p)
  unfolding tick cancel_followup
  tick_stops_dua q now p b ph e h = ground arith
