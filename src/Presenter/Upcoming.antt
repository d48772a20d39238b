-- ===== src/Presenter/Upcoming.antt =====
-- When the display announces a prayer.
use openathan.Base.{
  ◌≡◌, refl, ◌∙◌, sym, Bool, true, false, not, ◌&&◌, ◌||◌, Option, none, some, List, ℕ, ltb_ℤ,
  if◌then◌else◌, arith,
}
use openathan.Scheduler.{Event}
use openathan.TimeFormat.Clock.{clock_refused}
use openathan.Connection.{ConnectionFrame}
use openathan.Presenter.{
  Inputs, ScreenFrame, present, opening, body, connect, announce_next, announces, valid_time,
  next_of, has_fault,
}

-- The display's test of a time is that of format_clock.
pub valid_time-not : (value : List ℕ) → valid_time value ≡ not (clock_refused value)
unfolding valid_time clock_refused
valid_time-not value = ground arith

-- What a frame that announces a prayer says of its inputs.
pub record Announced (i : Inputs) : Type 0 where
  pub no_storage_fault : i.storage_fault ≡ false
  pub no_fault_now : has_fault i.status.fault ≡ false
  pub is_set_up : i.setup_complete ≡ true
  pub not_playing : i.status.playing ≡ false
  pub not_pending : i.dua_pending ≡ false
  pub has_clock : i.clock_valid ≡ true
  pub wanted : (i.prayers_enabled || i.round) ≡ true
  pub event : Event
  pub is_next : next_of i ≡ some event
  pub in_future : (not i.round || ltb_ℤ i.utc event.utc) ≡ true
  pub has_time : clock_refused i.next_time ≡ false

connect_upcoming :
    (i : Inputs) (f : ScreenFrame) (c : Option ConnectionFrame)
    → (connect i f c).upcoming ≡ f.upcoming
unfolding connect
connect_upcoming i f none = refl
connect_upcoming i f (some c) = ground arith

announce_next_upcoming :
    (i : Inputs) (f : ScreenFrame) (o : Option Event)
    → f.upcoming ≡ false
    → (announce_next i f o).upcoming ≡ true
    → (e : Event) × (o ≡ some e) × (announces i e ≡ true)
unfolding announce_next
announce_next_upcoming i f none off h = absurd (ground (arith, off, h))
announce_next_upcoming i f (some e) off h = (e, refl, ground (arith, off, h))

-- What holds where the last branches of `present` are reached.
record Reached (i : Inputs) : Type 0 where
  reached_storage : i.storage_fault ≡ false
  reached_fault : has_fault i.status.fault ≡ false
  reached_setup : i.setup_complete ≡ true
  reached_playing : i.status.playing ≡ false
  reached_pending : i.dua_pending ≡ false
  reached_clock : i.clock_valid ≡ true
  reached_wanted : (i.prayers_enabled || i.round) ≡ true

passed_by :
    (b : Bool) (x y : ScreenFrame)
    → x.upcoming ≡ false
    → (if b then x else y).upcoming ≡ true
    → (b ≡ false) × (y.upcoming ≡ true)
passed_by true x y off h = absurd (ground (arith, off, h))
passed_by false x y off h = (refl, h)

body_upcoming :
    (i : Inputs) (f : ScreenFrame)
    → f.upcoming ≡ false
    → (body i f).upcoming ≡ true
    → Reached i × ((announce_next i f (next_of i)).upcoming ≡ true)
unfolding body
body_upcoming i f off h =
    let g1 = passed_by (i.storage_fault || has_fault i.status.fault) _ _ off h in
    let g2 = passed_by (not i.setup_complete) _ _ off g1.1 in
    let g3 = passed_by (i.status.playing || i.dua_pending) _ _ off g2.1 in
    let g4 = passed_by (not i.clock_valid) _ _ off g3.1 in
    let g5 = passed_by (not i.prayers_enabled && not i.round) _ _ off g4.1 in
    (
      record {
        reached_storage = ground (arith, g1.0);
        reached_fault = ground (arith, g1.0);
        reached_setup = ground (arith, g2.0);
        reached_playing = ground (arith, g3.0);
        reached_pending = ground (arith, g3.0);
        reached_clock = ground (arith, g4.0);
        reached_wanted = ground (arith, g5.0);
      },
      g5.1,
    )

-- A frame announces a prayer only while storage works and the scheduler has no fault, after setup,
-- with nothing playing or about to, on a valid clock, and with some prayer turned on or on a round
-- display; then there is a next event, on a round display one that lies in the future, and the text
-- of its time is a time of day.
pub present-Announced : (i : Inputs) → (present i).upcoming ≡ true → Announced i
unfolding present opening
present-Announced i h =
    let r =
      body_upcoming i (opening i) refl
        (sym (connect_upcoming i (body i (opening i)) i.connection) ∙ h) in
    let a = announce_next_upcoming i (opening i) (next_of i) refl r.1 in
    record {
      no_storage_fault = r.0.reached_storage;
      no_fault_now = r.0.reached_fault;
      is_set_up = r.0.reached_setup;
      not_playing = r.0.reached_playing;
      not_pending = r.0.reached_pending;
      has_clock = r.0.reached_clock;
      wanted = r.0.reached_wanted;
      event = a.0;
      is_next = a.1;
      in_future = ground (arith, a.2);
      has_time = ground (arith, a.2, valid_time-not i.next_time);
    }
