-- ===== src/Scheduler/Consume.antt =====
-- Which occurrences are handled: `matches` and `consumed` of lib/openathan-core/src/scheduler.cpp,
-- and the loop of `Scheduler::tick` that consumes what is past and picks what is due.
use openathan.Base.{
  ℤ, pos, ◌+ℤ◌, ◌-ℤ◌, ◌*ℤ◌, Bool, false, not, ◌&&◌, ◌||◌, Option, none, some, List, [], ◌∷◌,
  if◌then◌else◌, ltb_ℤ, leb_ℤ, max_ℤ,
}
use openathan.Scheduler.{PerPrayer, at, put_at, EventKey, Event, ClockSample, key_eq}

abbrev pub shares : Option EventKey → (EventKey → Bool) → Bool
shares none test = false
shares (some k) test = test k

unfoldable pub matches : Event → EventKey → Bool
matches e key = key_eq e.key key || shares e.shared_with (λ k. key_eq k key)

-- `handled` of `consumed`.
abbrev pub handled : PerPrayer ℤ → EventKey → Bool
handled marks key = leb_ℤ key.day (at marks key.prayer)

unfoldable pub consumed : Event → PerPrayer ℤ → Bool
consumed e marks = handled marks e.key || shares e.shared_with (handled marks)

-- `consume` of `tick`.
abbrev pub consume_key : EventKey → PerPrayer ℤ → PerPrayer ℤ
consume_key key marks = put_at marks key.prayer (max_ℤ (at marks key.prayer) key.day)

abbrev pub consume_shared : Option EventKey → PerPrayer ℤ → PerPrayer ℤ
consume_shared none marks = marks
consume_shared (some k) marks = consume_key k marks

unfoldable pub consume : Event → PerPrayer ℤ → PerPrayer ℤ
consume e marks = consume_shared e.shared_with (consume_key e.key marks)

-- At most two seconds late.
unfoldable pub is_timely : ClockSample → Event → Bool
is_timely now e = leb_ℤ ((now.utc -ℤ e.utc) *ℤ 1000 +ℤ pos now.subsecond_ms) (pos 2000)

unfoldable pub is_skipped : Option EventKey → Event → Bool
unfolding matches
is_skipped none e = false
is_skipped (some key) e = matches e key

-- The condition under which `tick` sets `due = event`.
unfoldable pub is_due :
    ClockSample → ClockSample → Bool → Option EventKey → PerPrayer ℤ → Event → Bool
unfolding consumed is_timely is_skipped
is_due now previous continuous skip marks e =
    not (consumed e marks)
    && continuous
    && ltb_ℤ previous.utc e.utc
    && is_timely now e
    && e.enabled
    && not (is_skipped skip e)

-- The body of the loop at one event: the watermarks after it, and the due event.
unfoldable pub past_marks : ClockSample → Event → PerPrayer ℤ → PerPrayer ℤ
unfolding consume
past_marks now e marks = if ltb_ℤ now.utc e.utc then marks else consume e marks

unfoldable pub past_due :
    ClockSample
    → ClockSample
    → Bool
    → Option EventKey
    → Event
    → PerPrayer ℤ
    → Option Event
    → Option Event
unfolding is_due
past_due now previous continuous skip e marks due =
    if ltb_ℤ now.utc e.utc
    then due
    else if is_due now previous continuous skip marks e
    then some e
    else due

-- The loop: the watermarks and the due event, after the events so far.
unfoldable pub consume_past :
    ClockSample
    → ClockSample
    → Bool
    → Option EventKey
    → List Event
    → PerPrayer ℤ
    → Option Event
    → PerPrayer ℤ × Option Event
unfolding past_marks past_due
consume_past now previous continuous skip [] marks due = (marks, due)
consume_past now previous continuous skip (e ∷ es) marks due =
    consume_past now previous continuous skip es (past_marks now e marks)
      (past_due now previous continuous skip e marks due)
