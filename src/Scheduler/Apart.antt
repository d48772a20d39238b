-- ===== src/Scheduler/Apart.antt =====
-- Events of a timetable that do not consume each other: consuming one leaves the other unhandled.
use openathan.Base.{
  ◌≡◌, ℤ, ltb_ℤ, Bool, true, false, not, ◌&&◌, ◌||◌, Option, none, some, List, [], ◌∷◌, Bool-cases,
  Option-cases, arith, inl, inr,
}
use openathan.Scheduler.{
  Prayer, fajr, dhuhr, asr, maghrib, isha, PerPrayer, EventKey, Event, ClockSample, prayer_eq,
}
use openathan.Scheduler.Consume.{
  consumed, consume, consume_key, consume_shared, handled, past_marks,
}

-- Consuming `key` does not handle `k`: they are of different prayers, or `key` is of an earlier day.
abbrev apart_key : EventKey → EventKey → Bool
apart_key key k = not (prayer_eq key.prayer k.prayer) || ltb_ℤ key.day k.day

abbrev apart_shared : Option EventKey → EventKey → Bool
apart_shared none k = true
apart_shared (some key) k = apart_key key k

abbrev apart_event : Event → EventKey → Bool
apart_event f k = apart_key f.key k && apart_shared f.shared_with k

-- Consuming `f` handles neither identity of `e`.
unfoldable pub apart : Event → Event → Bool
apart e f = apart_event f e.key && elim e.shared_with [ none ↦ true | some k ↦ apart_event f k ]

unfoldable pub all_apart : Event → List Event → Bool
unfolding apart
all_apart e [] = true
all_apart e (f ∷ fs) = apart e f && all_apart e fs

handled-consume_key_apart :
    (m : PerPrayer ℤ) (day : ℤ) (p : Prayer) (day' : ℤ) (q : Prayer)
    → apart_key (record { day = day; prayer = p }) (record { day = day'; prayer = q }) ≡ true
    → handled m (record { day = day'; prayer = q }) ≡ false
    → handled (consume_key (record { day = day; prayer = p }) m) (record { day = day'; prayer = q })
      ≡ false
handled-consume_key_apart m day fajr day' q h k = ground arith
handled-consume_key_apart m day dhuhr day' q h k = ground arith
handled-consume_key_apart m day asr day' q h k = ground arith
handled-consume_key_apart m day maghrib day' q h k = ground arith
handled-consume_key_apart m day isha day' q h k = ground arith

handled-consume_shared_apart :
    (m : PerPrayer ℤ) (o : Option EventKey) (k : EventKey)
    → apart_shared o k ≡ true
    → handled m k ≡ false
    → handled (consume_shared o m) k ≡ false
handled-consume_shared_apart m none k h u = u
handled-consume_shared_apart m (some j) k h u =
    handled-consume_key_apart m j.day j.prayer k.day k.prayer h u

handled-consume_apart :
    (m : PerPrayer ℤ) (f : Event) (k : EventKey)
    → apart_event f k ≡ true
    → handled m k ≡ false
    → handled (consume f m) k ≡ false
unfolding consume
handled-consume_apart m f k h u =
    handled-consume_shared_apart (consume_key f.key m) f.shared_with k (ground arith)
      (handled-consume_key_apart m f.key.day f.key.prayer k.day k.prayer (ground arith) u)

consumed-consume-apart :
    (m : PerPrayer ℤ) (e f : Event)
    → apart e f ≡ true
    → consumed e m ≡ false
    → consumed e (consume f m) ≡ false
unfolding consumed apart
consumed-consume-apart m e f h u = elim (Option-cases e.shared_with) [
  | inl s ↦ ground (arith, handled-consume_apart m f e.key)
  | inr (k, s) ↦ ground (arith, handled-consume_apart m f e.key, handled-consume_apart m f k)
]

pub consumed-past_marks-apart :
    (now : ClockSample) (m : PerPrayer ℤ) (e f : Event)
    → apart e f ≡ true
    → consumed e m ≡ false
    → consumed e (past_marks now f m) ≡ false
unfolding past_marks
consumed-past_marks-apart now m e f h u = elim (Bool-cases (ltb_ℤ now.utc f.utc)) [
  | inl later ↦ rw (later, past_marks) u
  | inr past ↦ rw (past, past_marks) (consumed-consume-apart m e f h u)
]
