-- ===== src/Adapter/Refused.antt =====
-- The calls that `maintenance_` refuses: each leaves the component as it is, and calls `start` for no
-- prayer.
use openathan.Base.{
  ℕ, ℤ, ◌≡◌, refl, sym, subst, Bool, not, ◌||◌, Option, none, some, List, if_both, arith, is_some,
  ◌==◌, if_met,
}
use openathan.Scheduler.{Event, EventKey, ClockSample, skip_eq}
use openathan.Lights.{LightSettings}
use openathan.Settings.{SavedSettings, DeviceSettings}
use openathan.Adapter.{Wiring, Adapter, Instant, activated}
use openathan.Adapter.Output.{next_visual_prayer}
use openathan.Adapter.Core.{update_lights-SameCore, refresh-SameCore}
use openathan.Adapter.Control.{
  update, skip_occurrence, cancel_skip, cancel_occurrence, finish_setup_of, reload_of, is_storage,
}
use openathan.Adapter.Change.{
  change_settings, adjust_volume_of, change_dua, change_time_format, change_speaker_name,
  change_display, change_lights,
}
use openathan.Adapter.Maintenance.{
  InMaintenance, Quiet, Quiet-refl, SameCore-Quiet, activated_not, update_quiet,
}

module _ {M P O : Type 0} (w : Wiring M P O) where
  -- What a call leaves that neither changes anything nor calls `start`.
  abbrev pub IsRefused : Adapter M P O → Adapter M P O × Option Event → Type 0
  IsRefused a r = Quiet w a r.0 × (r.1 ≡ none)

  abbrev AnswersRefused : {A : Type 0} → Adapter M P O → A × Adapter M P O × Option Event → Type 0
  AnswersRefused a r = IsRefused a (r.1, r.2)

  refused : (a : Adapter M P O) → InMaintenance w a → IsRefused a (a, none)
  refused a m = (Quiet-refl w a m, refl)

  pub update-IsRefused :
      (a : Adapter M P O) (i later : Instant) → InMaintenance w a → IsRefused a (update w a i later)
  update-IsRefused a i later m =
      subst (IsRefused a) (sym (update_quiet w a i later m))
        (SameCore-Quiet w a _ m (update_lights-SameCore w a later), refl)

  pub reload_of-IsRefused :
      (a : Adapter M P O) (i later : Instant) (o : Option SavedSettings)
      → InMaintenance w a
      → IsRefused a (reload_of w a i later o)
  unfolding reload_of
  reload_of-IsRefused a i later none m = refused a m
  reload_of-IsRefused a i later (some saved) m =
      if_met (IsRefused a) (a.maintenance || not a.settings_service.writable) _
        (ground (arith, m.in_maintenance)) (refused a m)

  pub finish_setup_of-IsRefused :
      (a : Adapter M P O) (revision : ℕ) (before i later : Instant) (o : Option SavedSettings)
      → InMaintenance w a
      → AnswersRefused a (finish_setup_of w a revision before i later o)
  unfolding finish_setup_of
  finish_setup_of-IsRefused a revision before i later none m = refused a m
  finish_setup_of-IsRefused a revision before i later (some saved) m =
      if_met (AnswersRefused a)
        (a.maintenance
          || not a.settings_service.writable
          || not (saved.revision == revision)
          || is_storage a.scheduler.fault)
        _ (ground (arith, m.in_maintenance)) (refused a m)

  pub change_settings-IsRefused :
      (a : Adapter M P O) (candidate : DeviceSettings) (revision : ℕ) (before i later : Instant)
      → InMaintenance w a
      → AnswersRefused a (change_settings w a candidate revision before i later)
  unfolding change_settings
  change_settings-IsRefused a candidate revision before i later m =
      if_met (AnswersRefused a) a.maintenance _ m.in_maintenance (refused a m)

  pub adjust_volume_of-IsRefused :
      (a : Adapter M P O) (step : ℤ) (before i later : Instant) (o : Option SavedSettings)
      → InMaintenance w a
      → AnswersRefused a (adjust_volume_of w a step before i later o)
  unfolding adjust_volume_of
  adjust_volume_of-IsRefused a step before i later none m = refused a m
  adjust_volume_of-IsRefused a step before i later (some saved) m =
      if_both (AnswersRefused a) (not a.settings_service.writable) (refused a m)
        (change_settings-IsRefused a _ saved.revision before i later m)

  pub skip_occurrence-IsRefused :
      (a : Adapter M P O) (i : Instant) (expected : Option Event)
      → InMaintenance w a
      → AnswersRefused a (skip_occurrence w a i expected)
  unfolding skip_occurrence
  skip_occurrence-IsRefused a i expected m =
      if_met (AnswersRefused a) (not (activated a)) _ (ground (arith, activated_not w a m))
        (refused a m)

  -- A call with an answer and no event.
  abbrev AnswersQuiet : {A : Type 0} → Adapter M P O → A × Adapter M P O → Type 0
  AnswersQuiet a r = Quiet w a r.1

  pub cancel_skip-Quiet : (a : Adapter M P O) → InMaintenance w a → AnswersQuiet a (cancel_skip w a)
  unfolding cancel_skip
  cancel_skip-Quiet a m =
      if_met (AnswersQuiet a) (not (activated a)) _ (ground (arith, activated_not w a m))
        (Quiet-refl w a m)

  pub cancel_occurrence-Quiet :
      (a : Adapter M P O) (key : EventKey)
      → InMaintenance w a
      → AnswersQuiet a (cancel_occurrence w a key)
  unfolding cancel_occurrence
  cancel_occurrence-Quiet a key m =
      if_both (AnswersQuiet a) (skip_eq a.scheduler.state.skip (some key)) (cancel_skip-Quiet a m)
        (Quiet-refl w a m)

  pub change_dua-Quiet :
      (a : Adapter M P O) (on : Bool) (revision : ℕ)
      → InMaintenance w a
      → AnswersQuiet a (change_dua w a on revision)
  unfolding change_dua
  change_dua-Quiet a on revision m =
      if_met (AnswersQuiet a) a.maintenance _ m.in_maintenance (Quiet-refl w a m)

  pub change_time_format-Quiet :
      (a : Adapter M P O) (hours revision : ℕ)
      → InMaintenance w a
      → AnswersQuiet a (change_time_format w a hours revision)
  unfolding change_time_format
  change_time_format-Quiet a hours revision m =
      if_met (AnswersQuiet a) a.maintenance _ m.in_maintenance (Quiet-refl w a m)

  pub change_speaker_name-Quiet :
      (a : Adapter M P O) (name : List ℕ) (revision : ℕ)
      → InMaintenance w a
      → AnswersQuiet a (change_speaker_name w a name revision)
  unfolding change_speaker_name
  change_speaker_name-Quiet a name revision m =
      if_met (AnswersQuiet a) a.maintenance _ m.in_maintenance (Quiet-refl w a m)

  pub change_display-Quiet :
      (a : Adapter M P O) (percent revision : ℕ) (i : Instant)
      → InMaintenance w a
      → AnswersQuiet a (change_display w a percent revision i)
  unfolding change_display
  change_display-Quiet a percent revision i m =
      if_met (AnswersQuiet a) (not (is_some w.display_output) || a.maintenance) _
        (ground (arith, m.in_maintenance)) (Quiet-refl w a m)

  pub change_lights-Quiet :
      (a : Adapter M P O) (value : LightSettings) (revision : ℕ) (i : Instant)
      → InMaintenance w a
      → AnswersQuiet a (change_lights w a value revision i)
  unfolding change_lights
  change_lights-Quiet a value revision i m =
      if_met (AnswersQuiet a) (not (is_some w.light_output) || a.maintenance) _
        (ground (arith, m.in_maintenance)) (Quiet-refl w a m)

  pub next_visual_prayer-Quiet :
      (a : Adapter M P O) (now : ClockSample)
      → InMaintenance w a
      → AnswersQuiet a (next_visual_prayer w a now)
  unfolding next_visual_prayer
  next_visual_prayer-Quiet a now m = SameCore-Quiet w a _ m (refresh-SameCore w a now)
