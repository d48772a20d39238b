-- ===== src/Adapter/Sound.antt =====
-- What a call of `start` for a prayer says about the component: the settings are in working order
-- and the backend has the volume that they ask for.
use openathan.Base.{
  ℕ, ◌≡◌, ◌∙◌, refl, ap, sym, subst, Bool, true, false, not, ◌&&◌, ◌||◌, Option, none, some, ==_iff,
  is_some, if_both, if_cases, Bool-cases, Option-cases, inl, inr, arith, ◌==◌, if◌then◌else◌,
}
use openathan.Scheduler.{Event}
use openathan.Scheduler.Machine.{allow_playback}
use openathan.Scheduler.Once.{Plays, tick-Plays}
use openathan.DuaSequence.{dua_playback, cancel_followup}
use openathan.Settings.{SavedSettings}
use openathan.Storage.{Preferences}
use openathan.Adapter.{Wiring, Adapter, Instant, activated, read}
use openathan.Adapter.Control.{
  apply_wanted, apply_volume, apply_volume_of, tick_scheduler, update, is_volume, volume_of,
}

-- `settings_service_->healthy()`, with settings.
abbrev pub healthy : Preferences SavedSettings → Bool
healthy p = p.writable && is_some p.saved

module _ {M P O : Type 0} where
  -- Without settings the scheduler is blocked.
  pub data Sound (a : Adapter M P O) : Type 0 where
    has_settings : healthy a.settings_service ≡ true → Sound a
    is_blocked : a.scheduler.storage_ok ≡ false → Sound a

module _ {M P O : Type 0} (w : Wiring M P O) where
  -- What holds where an update that begins in `a` calls `start` for `e`.
  pub record Heard (a : Adapter M P O) (i : Instant) (e : Event) : Type 0 where
    pub saved : SavedSettings
    pub is_saved : a.settings_service.saved ≡ some saved
    pub has_storage : a.settings_service.writable ≡ true
    pub is_active : activated a ≡ true
    pub has_volume : volume_of w (apply_volume w a).sequence ≡ some (saved.value.volume)
    pub plays :
        Plays
          (apply_volume w a).scheduler
          (read w (apply_volume w a) i)
          e
          (tick_scheduler w (apply_volume w a) i).0.scheduler

  is_volume→eq : (wanted : ℕ) (o : Option ℕ) → is_volume wanted o ≡ true → o ≡ some wanted
  is_volume→eq wanted none h = cc
  is_volume→eq wanted (some v) h = ap some ((==_iff v wanted).0 h)

  -- `apply_volume_` leaves storage alone, and allows playback at the volume that is saved only.
  record Applied (a b : Adapter M P O) (saved : SavedSettings) : Type 0 where
    same_ok : b.scheduler.storage_ok ≡ a.scheduler.storage_ok
    same_active : activated b ≡ activated a
    at_volume :
        a.maintenance ≡ false
        → a.settings_service.writable ≡ true
        → b.scheduler.playback_allowed ≡ true
        → volume_of w b.sequence ≡ some (saved.value.volume)

  apply_wanted_volume :
      (a : Adapter M P O) (wanted : ℕ)
      → (apply_wanted w a wanted).scheduler.playback_allowed ≡ true
      → volume_of w (apply_wanted w a wanted).sequence ≡ some wanted
  unfolding apply_wanted allow_playback
  apply_wanted_volume a wanted h =
      let q = if wanted == 0 then cancel_followup w.backend a.sequence else a.sequence in
      elim (Bool-cases (is_volume wanted (volume_of w q))) [
        | inl same ↦ rw same (is_volume→eq wanted (volume_of w q) same)
        | inr other ↦ absurd (cc (rw other at h))
      ]

  apply_volume_of-Applied :
      (a : Adapter M P O) (saved : SavedSettings)
      → Applied a (apply_volume_of w a (some saved)) saved
  unfolding apply_volume_of
  apply_volume_of-Applied a saved =
      if_cases (λ b. Applied a b saved) (a.maintenance || not a.settings_service.writable)
        (λ stop. record {
          same_ok = refl;
          same_active = refl;
          at_volume = λ m h p. absurd (ground arith);
        })
        (λ go. record {
          same_ok = refl;
          same_active = refl;
          at_volume = λ m h p. apply_wanted_volume a saved.value.volume p;
        })

  -- The settings that a sound component with working storage has.
  Sound-settings :
      (a : Adapter M P O)
      → Sound a
      → a.scheduler.storage_ok ≡ true
      → (saved : SavedSettings) × (a.settings_service.saved ≡ some saved)
        × (a.settings_service.writable ≡ true)
  Sound-settings a (is_blocked b) ok = absurd (ground (arith, b, ok))
  Sound-settings a (has_settings h) ok = elim (Option-cases a.settings_service.saved) [
    | inl absent ↦ absurd (ground (arith, absent, h))
    | inr (saved, e) ↦ (saved, e, ground (arith, h))
  ]

  apply_volume-Applied :
      (a : Adapter M P O) (saved : SavedSettings)
      → a.settings_service.saved ≡ some saved
      → Applied a (apply_volume w a) saved
  unfolding apply_volume
  apply_volume-Applied a saved e =
      subst (λ (o : Option SavedSettings). Applied a (apply_volume_of w a o) saved) (sym e)
        (apply_volume_of-Applied a saved)

  apply_volume_of_ok :
      (a : Adapter M P O) (o : Option SavedSettings)
      → (apply_volume_of w a o).scheduler.storage_ok ≡ a.scheduler.storage_ok
  unfolding apply_volume_of apply_wanted allow_playback
  apply_volume_of_ok a none = refl
  apply_volume_of_ok a (some saved) =
      if_both (λ (b : Adapter M P O). b.scheduler.storage_ok ≡ a.scheduler.storage_ok)
        (a.maintenance || not a.settings_service.writable) refl refl

  activated_running : (a : Adapter M P O) → activated a ≡ true → a.maintenance ≡ false
  unfolding activated
  activated_running a h = ground arith

  -- An update that calls start for a prayer, from a state in which the scheduler is blocked unless
  -- there are settings: the component is activated and not in maintenance, the settings service is
  -- healthy, the backend is at the volume that the saved settings ask for, and the call is one that
  -- the scheduler may make on this clock sample.
  pub update-Heard :
      (a : Adapter M P O) (i later : Instant) (e : Event)
      → Sound a
      → (update w a i later).1 ≡ some e
      → Heard a i e
  unfolding update tick_scheduler apply_volume
  update-Heard a i later e sound h =
      let a1 = apply_volume w a in
      elim (Bool-cases (activated a1)) [
        | inr idle ↦ absurd (cc (rw idle at h))
        | inl active ↦
            let plays =
              tick-Plays w.state_store (dua_playback w.backend) w.calculator_source a1.scheduler
                a1.medium a1.sequence (read w a1 i) e (rw active at h) in
            let there =
              Sound-settings a sound
                (sym (apply_volume_of_ok a a.settings_service.saved) ∙ plays.3) in
            let applied = apply_volume-Applied a there.0 there.1 in
            record {
              saved = there.0;
              is_saved = there.1;
              has_storage = there.2;
              is_active = sym applied.same_active ∙ active;
              has_volume =
                  applied.at_volume (activated_running a (sym applied.same_active ∙ active)) there.2
                    plays.0.allowed;
              plays = plays.0;
            }
      ]
