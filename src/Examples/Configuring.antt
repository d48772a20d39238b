-- ===== src/Examples/Configuring.antt =====
-- The settings service, and the record of the scheduler's state.
use openathan.Base.{
  ℕ, ◌≡◌, refl, ℤ, pos, true, false, Option, none, some, [], ◌∷◌, arith, list_eq, ◌+ℤ◌, ◌-ℤ◌, ◌<ℤ◌,
  subst, ap,
}
use openathan.Storage.{Preferences}
use openathan.Storage.Laws.{run}
use openathan.Scheduler.{Prayer, DurableState, initial_state, put_at, at, EventKey}
use openathan.Scheduler.Valid.{default_settings}
use openathan.Settings.{
  DeviceSettings, SavedSettings, Timezone, no_rule, device_eq, valid_device_settings,
}
use openathan.Settings.Settled.{Settled, update-Settled}
use openathan.Settings.Service.{begin, update, next_saved, saved, begin-run_settings}
use openathan.Double.{is_nan}
use openathan.StateRecord.{encode_state, decode_state, valid_serial, marks_ok}
use openathan.StateRecord.RoundTrip.{decode_state-encode_state}
use openathan.StateRecord.RoundTrip as RoundTrip
use openathan.Examples.{cell, cell-IsDurable}

abbrev utc_zone : Timezone
utc_zone = record {
  name = b'U' ∷ b'T' ∷ b'C' ∷ [];
  standard_offset = pos 0;
  daylight_offset = pos 0;
  start = no_rule;
  end = no_rule;
}

abbrev pub at_volume : ℕ → DeviceSettings
at_volume n = record { prayer = default_settings; timezone = utc_zone; volume = n }

abbrev opened : Preferences SavedSettings
opened = record { saved = some (record { revision = 4; value = at_volume 70 }); writable = true }

-- A write.
update-Settled_example :
    Settled cell opened none
      (at_volume 55)
      4
      (λ c. true)
      (
        saved,
        record { saved = some (record { revision = 5; value = at_volume 55 }); writable = true },
        some (record { revision = 5; value = at_volume 55 }),
      )
unfolding update next_saved device_eq valid_device_settings list_eq is_nan
update-Settled_example = update-Settled cell opened none (at_volume 55) 4 (λ c. true)

-- A first start, an update, one with a stale revision and one that the preflight refuses.
begin-run_settings_example :
    (begin cell (at_volume 70) (some (record { revision = 2; value = at_volume 55 }))).1
    ≡ record { saved = some (record { revision = 2; value = at_volume 55 }); writable = true }
unfolding begin update next_saved device_eq valid_device_settings list_eq is_nan run
begin-run_settings_example =
    begin-run_settings cell (at_volume 70) none
      ((at_volume 55, 1, λ c. true)
        ∷ (at_volume 9, 1, λ c. true)
        ∷ (at_volume 9, 2, λ c. false)
        ∷ [])
      cell-IsDurable refl (omega arith) refl

abbrev pub skipping : DurableState
skipping = record {
  consumed_through = put_at initial_state.consumed_through Prayer.dhuhr (pos 19_782);
  skip = some (record { day = pos 19_783; prayer = Prayer.dhuhr });
}

abbrev day_or : Option EventKey → ℤ
day_or none = pos 0
day_or (some k) = k.day

abbrev Later : Option EventKey → Type 0
Later none = Unit
Later (some k) = at skipping.consumed_through k.prayer <ℤ k.day

pub skipping-IsStorable : RoundTrip.IsStorable skipping
unfolding valid_serial marks_ok ◌+ℤ◌ ◌-ℤ◌
skipping-IsStorable = record {
  marks_valid = refl;
  skip_valid = λ k e. subst (λ d. valid_serial d ≡ true) (ap day_or e) refl;
  skip_later = λ k e. subst Later e (omega arith);
}

decode_state-encode_state_example : decode_state (encode_state skipping) ≡ some skipping
decode_state-encode_state_example = decode_state-encode_state skipping skipping-IsStorable
