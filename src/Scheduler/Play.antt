-- ===== src/Scheduler/Play.antt =====
-- What `Scheduler::tick` may play. It calls `start` for at most one event, and only after that
-- event's consumption is in memory and, if it was new, on the medium.
use openathan.Base.{◌≡◌, refl, sym, subst, ℤ, Bool, true, false, Option, none, some, arith}
use openathan.Calendar.{day_number}
use openathan.Playback.{Playback}
use openathan.Storage.{Store}
use openathan.Scheduler.{PerPrayer, Event, ClockSample, DurableState, Scheduler}
use openathan.Scheduler.Machine.{settle_skip, refresh_next, persist, play_due, finish, settle}
use openathan.Scheduler.Marks.{LeMarks}
use openathan.Scheduler.Tick.{
  Change, SameStorage, Change-same, persist-Change, persist_ok, settle_skip_marks,
}

module _ {P : Type 0} (playback : Playback P) where
  play_due_same :
      (c : Scheduler) (p : P) (due : Option Event) → SameStorage c (play_due playback c p due).0
  unfolding play_due
  play_due_same c p none = ground arith
  play_due_same c p (some e) = ground arith

  -- `start` is called for the due event only, while playback is allowed and the backend is ready.
  play_due_request :
      (c : Scheduler) (p : P) (due : Option Event) (e : Event)
      → (play_due playback c p due).2 ≡ some e
      → (due ≡ some e) × (c.playback_allowed ≡ true) × (playback.ready p ≡ true)
  unfolding play_due
  play_due_request c p none e h = ground arith
  play_due_request c p (some d) e h = ground arith

-- The state that `tick` persists.
abbrev pub candidate_of : Scheduler → ClockSample → PerPrayer ℤ → DurableState
candidate_of c now marks =
    settle_skip (record { consumed_through = marks; skip = c.state.skip })
      (day_number now.local_date) now.utc c.events

module _ {P : Type 0} (playback : Playback P) where
  finish_same :
      {S : Type 0} (ok : Bool) (c : Scheduler) (s : S) (p : P) (now : ClockSample)
      (due : Option Event)
      → SameStorage c (finish playback ok c s p now due).0
        × ((finish playback ok c s p now due).1 ≡ s)
  unfolding finish refresh_next
  finish_same false c s p now due = (record { same_state = refl; same_ok = refl }, refl)
  finish_same true c s p now due = (
    ground (
      arith,
      play_due_same playback (refresh_next (record c { previous = now; armed = true }) now.utc) p
          due,
    ),
    refl,
  )

  finish_request :
      {S : Type 0} (ok : Bool) (c : Scheduler) (s : S) (p : P) (now : ClockSample)
      (due : Option Event) (e : Event)
      → (finish playback ok c s p now due).3 ≡ some e
      → (ok ≡ true) × (due ≡ some e) × (c.playback_allowed ≡ true) × (playback.ready p ≡ true)
  unfolding finish refresh_next
  finish_request false c s p now due e h = ground arith
  finish_request true c s p now due e h =
      let r =
        play_due_request playback (refresh_next (record c { previous = now; armed = true }) now.utc)
          p due e h in
      (refl, r.0, r.1, r.2)

module _ {S P : Type 0} (store : Store S DurableState) (playback : Playback P) where
  pub settle-Change :
      (c : Scheduler) (s : S) (p : P) (now : ClockSample) (marks : PerPrayer ℤ) (due : Option Event)
      → c.storage_ok ≡ true
      → LeMarks c.state.consumed_through marks
      → Change store c s
          (settle store playback c s p now marks due).0
          (settle store playback c s p now marks due).1
  unfolding settle
  settle-Change c s p now marks due ok h =
      let candidate = candidate_of c now marks in
      let kept = persist store c s candidate in
      let same = finish_same playback kept.0 kept.1 kept.2 p now due in
      subst (Change store c s (finish playback kept.0 kept.1 kept.2 p now due).0) (sym same.1) (
        Change-same store c c s kept.1 _ kept.2 (record { same_state = refl; same_ok = refl })
          same.0
          (persist-Change store c s candidate ok (
            subst (LeMarks c.state.consumed_through)
              (sym (
                settle_skip_marks (record { consumed_through = marks; skip = c.state.skip })
                  (day_number now.local_date) now.utc c.events))
              h)))

  pub settle_request :
      (c : Scheduler) (s : S) (p : P) (now : ClockSample) (marks : PerPrayer ℤ) (due : Option Event)
      (e : Event)
      → (settle store playback c s p now marks due).3 ≡ some e
      → (due ≡ some e)
        × ((settle store playback c s p now marks due).0.state.consumed_through ≡ marks)
        × ((settle store playback c s p now marks due).0.storage_ok ≡ c.storage_ok)
        × (c.playback_allowed ≡ true)
        × (playback.ready p ≡ true)
  unfolding settle
  settle_request c s p now marks due e h =
      let candidate = candidate_of c now marks in
      let kept = persist store c s candidate in
      let r = finish_request playback kept.0 kept.1 kept.2 p now due e h in
      let same = finish_same playback kept.0 kept.1 kept.2 p now due in
      let stored = persist_ok store c s candidate r.0 in
      (
        r.1,
        ground (
          arith,
          same.0,
          stored,
          settle_skip_marks (record { consumed_through = marks; skip = c.state.skip })
              (day_number now.local_date) now.utc c.events,
        ),
        ground (arith, same.0, stored),
        ground (arith, stored, r.2),
        r.3,
      )
