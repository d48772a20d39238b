-- ===== src/Examples/Sequencing.antt =====
-- The sequence of an Athan, a pause and a du'a.
use openathan.Base.{◌≤◌, ◌≡◌, ◌+◌, ℕ, refl, inl, inr, true, false, some, [], ◌∷◌, List}
use openathan.Playback.{Track}
use openathan.DuaSequence.{Sequence, tick, start, cancel_followup, set_enabled, idle, pause, dua}
use openathan.DuaSequence.Once.{History, Step, History-le, tick_asks, tick_withdraws}
use openathan.DuaSequence.Counted.{counted}
use openathan.Examples.{desk}

abbrev following : Sequence (List Track)
following = record {
  backend = some (Track.dua ∷ Track.normal ∷ []);
  phase = dua;
  enabled = false;
  has_failed = false;
  epoch = 2;
  last_tick = 1000;
  pause_at = 1000;
}

-- An enabled sequence plays one Athan, pauses, and asks once for the du'a; the backend is the desk
-- with a count of zero.
History-le_example : 1 ≤ 1
unfolding tick start cancel_followup set_enabled
History-le_example = History-le desk (
    History.next
      (History.next
        (History.next
          (History.next
            (History.next (History.next History.begin (Step.changes (some ([], 0))))
              (Step.enables true))
            (Step.starts Track.normal))
          (Step.ticks 1000))
        (Step.ticks 3000))
      (Step.ticks 4000))

abbrev waiting_counted : Sequence (List Track × ℕ)
waiting_counted = record {
  backend = some (Track.normal ∷ [], 0);
  phase = pause;
  enabled = true;
  has_failed = false;
  epoch = 1;
  last_tick = 1000;
  pause_at = 1000;
}

-- The tick starts the du'a once.
tick_asks_example :
    (tick (counted desk) waiting_counted 3000).backend ≡ some (Track.dua ∷ Track.normal ∷ [], 0 + 1)
unfolding tick cancel_followup
tick_asks_example =
    (tick_asks desk waiting_counted 3000 (Track.normal ∷ []) 0 refl (λ e. absurd (cc e))).0

tick_withdraws_example : (tick desk following 2000).phase ≡ idle
tick_withdraws_example =
    tick_withdraws desk following 2000 (Track.dua ∷ Track.normal ∷ []) refl (inr (inr (inl refl)))
