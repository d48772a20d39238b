-- ===== src/Adapter/Control.antt =====
-- The parts of openathan.cpp that pass time and requests to the scheduler and the sequence:
-- `apply_volume_`, `update`, `loop`, `stop`, the skips, `finish_setup`, `reload_schedule` and
-- `quiesce_for_maintenance`. An operation that looks at the clocks more than once has an argument
-- for each part of it that does.
use openathan.Base.{
  ℕ, ◌+◌, ◌%◌, ◌^◌, Bool, true, false, not, ◌&&◌, ◌||◌, Option, none, some, leb, ◌==◌,
  if◌then◌else◌,
}
use openathan.Scheduler.{Event, EventKey, Fault, never_consumed, skip_eq}
use openathan.Scheduler.Machine as Machine
use openathan.Scheduler.Machine.{block_storage, allow_playback, validate_schedule}
use openathan.DuaSequence as DuaSequence
use openathan.DuaSequence.{Sequence, dua_playback, cancel_followup}
use openathan.DuaPreference.{SavedDua}
use openathan.Storage.{Preferences}
use openathan.Settings.{SavedSettings}
use openathan.Nvs.Setup as Setup
use openathan.Nvs.Setup.{SetupStore}
use openathan.Adapter.{Wiring, Adapter, Instant, millis, activated, read}
use openathan.Adapter.Output.{update_lights, apply_display}

abbrev pub is_volume : ℕ → Option ℕ → Bool
is_volume wanted none = false
is_volume wanted (some percent) = percent == wanted

-- `DuaPreferences::enabled`.
abbrev pub dua_enabled : Preferences SavedDua → Bool
dua_enabled p = p.writable && elim p.saved [ none ↦ false | some saved ↦ saved.enabled ]

abbrev pub is_storage : Fault → Bool
is_storage Fault.storage = true
is_storage _ = false

module _ {M P O : Type 0} (w : Wiring M P O) where
  -- `playback_->volume_percent()`.
  abbrev pub volume_of : Sequence P → Option ℕ
  volume_of q = elim q.backend [ none ↦ none | some p ↦ w.backend.volume_percent p ]

  abbrev ask_volume : Sequence P → ℕ → Sequence P
  ask_volume q wanted = elim q.backend [
    | none ↦ q
    | some p ↦ record q { backend = some ((w.backend.request_volume_percent wanted p).1) }
  ]

  -- `apply_volume_` with the volume that is saved.
  unfoldable pub apply_wanted : Adapter M P O → ℕ → Adapter M P O
  unfolding cancel_followup allow_playback activated
  apply_wanted a wanted =
      let q = if wanted == 0 then cancel_followup w.backend a.sequence else a.sequence in
      let applied = is_volume wanted (volume_of q) in
      record a {
        volume_applied = applied;
        scheduler = allow_playback a.scheduler (applied && activated a);
        volume_attempts = if applied then 0 else (a.volume_attempts + 1) % 2 ^ 32;
        sequence = if applied then q else ask_volume q wanted;
      }

  -- `apply_volume_` with what is saved.
  unfoldable pub apply_volume_of : Adapter M P O → Option SavedSettings → Adapter M P O
  unfolding apply_wanted
  apply_volume_of a none = a
  apply_volume_of a (some saved) =
      if a.maintenance || not a.settings_service.writable
      then a
      else apply_wanted a saved.value.volume

  unfoldable pub apply_volume : Adapter M P O → Adapter M P O
  unfolding apply_volume_of
  apply_volume a = apply_volume_of a a.settings_service.saved

  -- `scheduler_->tick()`, with the event for which it calls `start`.
  unfoldable pub tick_scheduler : Adapter M P O → Instant → Adapter M P O × Option Event
  unfolding Machine.tick dua_playback read
  tick_scheduler a i =
      let t =
        Machine.tick w.state_store (dua_playback w.backend) w.calculator_source a.scheduler a.medium
          a.sequence (read w a i) in
      (record a { scheduler = t.0; medium = t.1; sequence = t.2 }, t.3)

  unfoldable pub update : Adapter M P O → Instant → Instant → Adapter M P O × Option Event
  unfolding apply_volume tick_scheduler activated update_lights
  update a i later =
      let a1 = apply_volume a in
      let t = tick_scheduler a1 i in
      if activated a1 then (update_lights w t.0 later, t.1) else (update_lights w a1 later, none)

  abbrev pub healthy_loop : Adapter M P O → Bool
  healthy_loop a = dua_enabled a.dua_preferences && activated a && a.settings_service.writable

  -- `loop` up to its tests on the time, and with the display's.
  unfoldable pub loop_lights : Adapter M P O → Instant → Adapter M P O
  unfolding DuaSequence.set_enabled DuaSequence.tick update_lights activated
  loop_lights a i =
      let q = DuaSequence.set_enabled w.backend a.sequence (healthy_loop a) in
      update_lights w (record a { sequence = DuaSequence.tick w.backend q (millis i) }) i

  unfoldable pub loop_display : Adapter M P O → Instant → Adapter M P O
  unfolding apply_display
  loop_display a i =
      if not a.maintenance && not a.display_output_ok && leb a.display_next_check (millis i)
      then apply_display w a i
      else a

  -- The end of `loop`.
  unfoldable pub loop_volume : Adapter M P O → Instant → Adapter M P O
  unfolding apply_volume
  loop_volume a i =
      if leb a.next_volume_check (millis i)
      then record (apply_volume a) { next_volume_check = millis i + 250 }
      else a

  unfoldable pub loop : Adapter M P O → Instant → Adapter M P O
  unfolding loop_lights loop_display loop_volume
  loop a i = loop_volume (loop_display (loop_lights a i) i) i

  unfoldable pub stop : Adapter M P O → Adapter M P O
  unfolding DuaSequence.stop
  stop a = record a { sequence = DuaSequence.stop w.backend a.sequence }

  -- `skip_next` with no occurrence and `skip_occurrence` with one: the answer, and the event for
  -- which the tick of it calls `start`.
  unfoldable pub skip_occurrence :
      Adapter M P O → Instant → Option Event → Bool × Adapter M P O × Option Event
  unfolding Machine.skip_next dua_playback read activated
  skip_occurrence a i expected =
      let r =
        Machine.skip_next w.state_store (dua_playback w.backend) w.calculator_source a.scheduler
          a.medium a.sequence (read w a i) expected in
      if not (activated a)
      then (false, a, none)
      else (r.0, record a { scheduler = r.1; medium = r.2; sequence = r.3 }, r.4)

  unfoldable pub cancel_skip : Adapter M P O → Bool × Adapter M P O
  unfolding Machine.cancel_skip activated
  cancel_skip a =
      let r = Machine.cancel_skip w.state_store a.scheduler a.medium in
      if not (activated a) then (false, a) else (r.0, record a { scheduler = r.1; medium = r.2 })

  unfoldable pub cancel_occurrence : Adapter M P O → EventKey → Bool × Adapter M P O
  unfolding cancel_skip activated
  cancel_occurrence a expected =
      if skip_eq a.scheduler.state.skip (some expected) then cancel_skip a else (false, a)

  -- The answer true with what `update` leaves.
  abbrev updated : Adapter M P O × Option Event → Bool × Adapter M P O × Option Event
  updated u = (true, u.0, u.1)

  -- `finish_setup` once nothing speaks against it.
  unfoldable pub activate_gate :
      Adapter M P O → Instant → Instant → Option SetupStore → Bool × Adapter M P O × Option Event
  unfolding Setup.activate update block_storage
  activate_gate a i later none = updated (update a i later)
  activate_gate a i later (some gate) =
      let r = Setup.activate w.nvs gate a.medium in
      let a1 : Adapter M P O = record a { setup_gate = some (r.1); medium = r.2 } in
      if not r.0
      then (false, record a1 { scheduler = block_storage a.scheduler }, none)
      else updated (update a1 i later)

  unfoldable pub finish_setup_of :
      Adapter M P O
      → ℕ
      → Instant
      → Instant
      → Instant
      → Option SavedSettings
      → Bool × Adapter M P O × Option Event
  unfolding activate_gate read validate_schedule
  finish_setup_of a revision before i later none = (false, a, none)
  finish_setup_of a revision before i later (some saved) =
      let now = read w a before in
      if a.maintenance
        || not a.settings_service.writable
        || not (saved.revision == revision)
        || is_storage a.scheduler.fault
      then (false, a, none)
      else if now.valid
          && not (validate_schedule w.calculator_source saved.value.prayer now.local_date)
      then (false, a, none)
      else activate_gate a i later a.setup_gate

  unfoldable pub finish_setup :
      Adapter M P O → ℕ → Instant → Instant → Instant → Bool × Adapter M P O × Option Event
  unfolding finish_setup_of
  finish_setup a revision before i later =
      finish_setup_of a revision before i later a.settings_service.saved

  unfoldable pub reload_of :
      Adapter M P O → Instant → Instant → Option SavedSettings → Adapter M P O × Option Event
  unfolding Machine.begin allow_playback update activated
  reload_of a i later none = (a, none)
  reload_of a i later (some saved) =
      let begun = Machine.begin w.state_store a.scheduler a.medium saved.value.prayer in
      if a.maintenance || not a.settings_service.writable
      then (a, none)
      else update
          (record a {
            light_day = never_consumed;
            scheduler = allow_playback begun.1 (a.volume_applied && activated a);
          })
          i later

  unfoldable pub reload_schedule : Adapter M P O → Instant → Instant → Adapter M P O × Option Event
  unfolding reload_of
  reload_schedule a i later = reload_of a i later a.settings_service.saved

  unfoldable pub quiesce_for_maintenance : Adapter M P O → Instant → Adapter M P O
  unfolding DuaSequence.stop update_lights block_storage
  quiesce_for_maintenance a i =
      let quiet =
        update_lights w
          (record a {
            sequence = DuaSequence.stop w.backend a.sequence;
            maintenance = true;
            light_next_frame = 0;
            light_retry_at = 0;
          })
          i in
      record quiet {
        sequence = DuaSequence.stop w.backend quiet.sequence;
        scheduler = block_storage quiet.scheduler;
      }
