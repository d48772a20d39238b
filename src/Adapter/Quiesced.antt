-- ===== src/Adapter/Quiesced.antt =====
-- No call after `quiesce_for_maintenance` undoes it.
use openathan.Base.{true, ◌≡◌, ◌∙◌, refl, ap, List, [], ◌∷◌}
use openathan.Scheduler.Machine.{block_storage}
use openathan.DuaSequence as DuaSequence
use openathan.Adapter.{Wiring, Adapter, Instant, read}
use openathan.Adapter.Output.{update_lights}
use openathan.Adapter.Core.{update_lights-SameCore}
use openathan.Adapter.Control.{finish_setup, reload_schedule, quiesce_for_maintenance}
use openathan.Adapter.Change.{adjust_volume}
use openathan.Adapter.Steps.{
  Op, apply, run, prepend, updates, loops, stops, skips, cancels, cancels_occurrence,
  finishes_setup, reloads, quiesces, settings_changes, volume_adjusts, dua_changes,
  time_format_changes, speaker_name_changes, display_changes, lights_changes, visual_asks,
}
use openathan.Adapter.Maintenance.{
  InMaintenance, Quiet, Quiet-refl, Quiet-trans, halted, untouched, SameCore-Quiet, loop-Quiet,
  stop-Quiet,
}
use openathan.Adapter.Refused.{
  IsRefused, update-IsRefused, skip_occurrence-IsRefused, cancel_skip-Quiet,
  cancel_occurrence-Quiet, finish_setup_of-IsRefused, reload_of-IsRefused,
  change_settings-IsRefused, adjust_volume_of-IsRefused, change_dua-Quiet, change_time_format-Quiet,
  change_speaker_name-Quiet, change_display-Quiet, change_lights-Quiet, next_visual_prayer-Quiet,
}

module _ {M P O : Type 0} (w : Wiring M P O) where
  quiesce-InMaintenance :
      (a : Adapter M P O) (i : Instant) → InMaintenance w (quiesce_for_maintenance w a i)
  unfolding quiesce_for_maintenance DuaSequence.stop block_storage
  quiesce-InMaintenance a i = record {
    in_maintenance =
        (update_lights-SameCore w
          (record a {
            sequence = DuaSequence.stop w.backend a.sequence;
            maintenance = true;
            light_next_frame = 0;
            light_retry_at = 0;
          })
          i).same_maintenance;
    is_idle = refl;
    is_blocked = refl;
  }

  quiesce-Quiet :
      (a : Adapter M P O) (i : Instant)
      → InMaintenance w a
      → Quiet w a (quiesce_for_maintenance w a i)
  unfolding quiesce_for_maintenance DuaSequence.stop block_storage
  quiesce-Quiet a i m =
      let a1 : Adapter M P O = record a {
        sequence = DuaSequence.stop w.backend a.sequence;
        maintenance = true;
        light_next_frame = 0;
        light_retry_at = 0;
      } in
      let stopped : Quiet w a a1 = record {
        same_medium = refl;
        same_scheduler = refl;
        same_settings = refl;
        stays = record { in_maintenance = refl; is_idle = refl; is_blocked = m.is_blocked };
        backend_halted = halted a.sequence.backend untouched;
      } in
      let a2 = update_lights w a1 i in
      let lit =
        Quiet-trans w a a1 a2 stopped
          (SameCore-Quiet w a1 a2 stopped.stays (update_lights-SameCore w a1 i)) in
      record {
        same_medium = lit.same_medium;
        same_scheduler = lit.stays.is_blocked ∙ lit.same_scheduler;
        same_settings = lit.same_settings;
        stays = record {
          in_maintenance = lit.stays.in_maintenance;
          is_idle = refl;
          is_blocked = refl;
        };
        backend_halted = halted a2.sequence.backend lit.backend_halted;
      }

  apply-IsRefused : (op : Op) (a : Adapter M P O) → InMaintenance w a → IsRefused w a (apply w op a)
  unfolding apply finish_setup reload_schedule adjust_volume
  apply-IsRefused (updates i later) a m = update-IsRefused w a i later m
  apply-IsRefused (loops i) a m = (loop-Quiet w a i m, refl)
  apply-IsRefused stops a m = (stop-Quiet w a m, refl)
  apply-IsRefused (skips i expected) a m = skip_occurrence-IsRefused w a i expected m
  apply-IsRefused cancels a m = (cancel_skip-Quiet w a m, refl)
  apply-IsRefused (cancels_occurrence key) a m = (cancel_occurrence-Quiet w a key m, refl)
  apply-IsRefused (finishes_setup revision before i later) a m =
      finish_setup_of-IsRefused w a revision before i later a.settings_service.saved m
  apply-IsRefused (reloads i later) a m = reload_of-IsRefused w a i later a.settings_service.saved m
  apply-IsRefused (quiesces i) a m = (quiesce-Quiet a i m, refl)
  apply-IsRefused (settings_changes candidate revision before i later) a m =
      change_settings-IsRefused w a candidate revision before i later m
  apply-IsRefused (volume_adjusts step before i later) a m =
      adjust_volume_of-IsRefused w a step before i later a.settings_service.saved m
  apply-IsRefused (dua_changes on revision) a m = (change_dua-Quiet w a on revision m, refl)
  apply-IsRefused (time_format_changes hours revision) a m =
      (change_time_format-Quiet w a hours revision m, refl)
  apply-IsRefused (speaker_name_changes name revision) a m =
      (change_speaker_name-Quiet w a name revision m, refl)
  apply-IsRefused (display_changes percent revision i) a m =
      (change_display-Quiet w a percent revision i m, refl)
  apply-IsRefused (lights_changes value revision i) a m =
      (change_lights-Quiet w a value revision i m, refl)
  apply-IsRefused (visual_asks i) a m = (next_visual_prayer-Quiet w a (read w a i) m, refl)

  run-Quiet :
      (ops : List Op) (a : Adapter M P O)
      → InMaintenance w a
      → Quiet w a (run w ops a).0 × ((run w ops a).1 ≡ [])
  unfolding run
  run-Quiet [] a m = (Quiet-refl w a m, refl)
  run-Quiet (op ∷ ops) a m =
      let first = apply-IsRefused op a m in
      let rest = run-Quiet ops (apply w op a).0 first.0.stays in
      (
        Quiet-trans w a (apply w op a).0 _ first.0 rest.0,
        ap (λ x. prepend x (run w ops (apply w op a).0).1) first.1 ∙ rest.1,
      )

  -- Whatever calls follow quiesce_for_maintenance, in any order and at any times: the medium, the
  -- scheduler and the settings service stay as it leaves them, no prayer is played, the backend is
  -- asked for nothing but to stop, and maintenance, in which no du'a is due and the scheduler is
  -- blocked, does not end.
  pub run-quiesce :
      (ops : List Op) (a : Adapter M P O) (i : Instant)
      → Quiet w (quiesce_for_maintenance w a i) (run w ops (quiesce_for_maintenance w a i)).0
        × ((run w ops (quiesce_for_maintenance w a i)).1 ≡ [])
  run-quiesce ops a i = run-Quiet ops (quiesce_for_maintenance w a i) (quiesce-InMaintenance a i)
