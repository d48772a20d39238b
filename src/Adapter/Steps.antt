-- ===== src/Adapter/Steps.antt =====
-- The calls that the component takes once `setup` is over, and what they do: the operations of
-- openathan.h that its owners, timers and actions call, in any order.
use openathan.Base.{ℕ, ℤ, Bool, Option, none, some, List, [], ◌∷◌}
use openathan.Scheduler.{Event, EventKey}
use openathan.Lights.{LightSettings}
use openathan.Settings.{DeviceSettings}
use openathan.Adapter.{Wiring, Adapter, Instant, read}
use openathan.Adapter.Output.{next_visual_prayer}
use openathan.Adapter.Control.{
  update, loop, stop, skip_occurrence, cancel_skip, cancel_occurrence, finish_setup,
  reload_schedule, quiesce_for_maintenance,
}
use openathan.Adapter.Change.{
  change_settings, adjust_volume, change_dua, change_time_format, change_speaker_name,
  change_display, change_lights,
}

pub data Op : Type 0 where
  updates : Instant → Instant → Op
  loops : Instant → Op
  stops : Op
  skips : Instant → Option Event → Op
  cancels : Op
  cancels_occurrence : EventKey → Op
  finishes_setup : ℕ → Instant → Instant → Instant → Op
  reloads : Instant → Instant → Op
  quiesces : Instant → Op
  settings_changes : DeviceSettings → ℕ → Instant → Instant → Instant → Op
  volume_adjusts : ℤ → Instant → Instant → Instant → Op
  dua_changes : Bool → ℕ → Op
  time_format_changes : ℕ → ℕ → Op
  speaker_name_changes : List ℕ → ℕ → Op
  display_changes : ℕ → ℕ → Instant → Op
  lights_changes : LightSettings → ℕ → Instant → Op
  visual_asks : Instant → Op

abbrev pub prepend : Option Event → List Event → List Event
prepend none es = es
prepend (some e) es = e ∷ es

module _ {M P O : Type 0} (w : Wiring M P O) where
  -- A result without the answer to the caller.
  abbrev pub unanswered :
      {A : Type 0} → A × Adapter M P O × Option Event → Adapter M P O × Option Event
  unanswered r = (r.1, r.2)

  -- The state after a call, and the event for which it calls `start` of the sequence.
  unfoldable pub apply : Op → Adapter M P O → Adapter M P O × Option Event
  unfolding update loop stop skip_occurrence cancel_skip cancel_occurrence finish_setup
      reload_schedule quiesce_for_maintenance change_settings adjust_volume change_dua
      change_time_format change_speaker_name change_display change_lights next_visual_prayer read
  apply (updates i later) a = update w a i later
  apply (loops i) a = (loop w a i, none)
  apply stops a = (stop w a, none)
  apply (skips i expected) a = unanswered (skip_occurrence w a i expected)
  apply cancels a = ((cancel_skip w a).1, none)
  apply (cancels_occurrence key) a = ((cancel_occurrence w a key).1, none)
  apply (finishes_setup revision before i later) a =
      unanswered (finish_setup w a revision before i later)
  apply (reloads i later) a = reload_schedule w a i later
  apply (quiesces i) a = (quiesce_for_maintenance w a i, none)
  apply (settings_changes candidate revision before i later) a =
      unanswered (change_settings w a candidate revision before i later)
  apply (volume_adjusts step before i later) a = unanswered (adjust_volume w a step before i later)
  apply (dua_changes enabled revision) a = ((change_dua w a enabled revision).1, none)
  apply (time_format_changes hours revision) a = ((change_time_format w a hours revision).1, none)
  apply (speaker_name_changes name revision) a = ((change_speaker_name w a name revision).1, none)
  apply (display_changes percent revision i) a = ((change_display w a percent revision i).1, none)
  apply (lights_changes value revision i) a = ((change_lights w a value revision i).1, none)
  apply (visual_asks i) a = ((next_visual_prayer w a (read w a i)).1, none)

  -- A run of calls: the state after them, and the events for which they call `start`, in order.
  unfoldable pub run : List Op → Adapter M P O → Adapter M P O × List Event
  unfolding apply
  run [] a = (a, [])
  run (op ∷ ops) a = let r = apply op a in let rest = run ops r.0 in (rest.0, prepend r.1 rest.1)
