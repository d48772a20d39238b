-- ===== src/Settings/Settled.antt =====
-- Every outcome of `SettingsService::update`: its answer, what it leaves in memory and what it leaves
-- on the medium.
use openathan.Base.{
  ℕ, ◌≡◌, ◌≢◌, refl, Bool, true, false, not, Option, none, some, if_cases, ==_iff, arith, ◌==◌,
}
use openathan.Storage.{Store, Preferences}
use openathan.Settings.{DeviceSettings, SavedSettings, valid_device_settings, device_eq}
use openathan.Settings.Service.{
  SettingsResult, saved, unchanged, conflict, invalid, invalid_schedule, storage, next_saved,
  update,
}

module _ {S : Type 0} (st : Store S SavedSettings) (p : Preferences SavedSettings) (s : S)
    (candidate : DeviceSettings) (expected : ℕ) (preflight : DeviceSettings → Bool) where
  -- What justifies an answer that refuses the candidate.
  pub data Reason : SettingsResult → Type 0 where
    no_value : p.saved ≡ none → Reason storage
    not_writable : p.writable ≡ false → Reason storage
    is_stale :
        (old : SavedSettings) → p.saved ≡ some old → expected ≢ old.revision → Reason conflict
    is_last :
        (old : SavedSettings) → p.saved ≡ some old → old.revision ≡ 0xFFFF_FFFF → Reason conflict
    is_invalid : valid_device_settings candidate ≡ false → Reason invalid
    is_same :
        (old : SavedSettings)
        → p.saved ≡ some old
        → device_eq candidate old.value ≡ true
        → Reason unchanged
    does_not_fit : preflight candidate ≡ false → Reason invalid_schedule

  -- A candidate that may be written after `old`.
  pub record IsAcceptable (old : SavedSettings) : Type 0 where
    pub is_saved : p.saved ≡ some old
    pub has_storage : p.writable ≡ true
    pub is_current : expected ≡ old.revision
    pub is_valid : valid_device_settings candidate ≡ true
    pub is_new : device_eq candidate old.value ≡ false
    pub fits : preflight candidate ≡ true
    pub has_next : old.revision ≢ 0xFFFF_FFFF

  -- The three ends of an update: the answer, the service and the medium.
  pub data Settled : SettingsResult × Preferences SavedSettings × S → Type 0 where
    refuses : (r : SettingsResult) → Reason r → Settled (r, p, s)
    fails :
        (old : SavedSettings)
        → IsAcceptable old
        → (st.save (next_saved candidate old.revision) s).0 ≡ false
        → Settled (
          storage,
          record p { writable = false },
          (st.save (next_saved candidate old.revision) s).1,
        )
    saves :
        (old : SavedSettings)
        → IsAcceptable old
        → (st.save (next_saved candidate old.revision) s).0 ≡ true
        → Settled (
          saved,
          record p { saved = some (next_saved candidate old.revision) },
          (st.save (next_saved candidate old.revision) s).1,
        )

different : (a b : ℕ) → (a == b) ≡ false → a ≢ b
different a b h e = ground (arith, h, e)

same : (a b : ℕ) → not (a == b) ≡ false → a ≡ b
same a b h = ground (arith, h)

stale : (a b : ℕ) → not (a == b) ≡ true → a ≢ b
stale a b h e = ground (arith, h, e)

not-true : (b : Bool) → not b ≡ true → b ≡ false
not-true b h = ground (arith, h)

not-false : (b : Bool) → not b ≡ false → b ≡ true
not-false b h = ground (arith, h)

update-Settled_on :
    {S : Type 0} (st : Store S SavedSettings) (o : Option SavedSettings) (writable : Bool) (s : S)
    (candidate : DeviceSettings) (expected : ℕ) (preflight : DeviceSettings → Bool)
    → let p : Preferences SavedSettings = record { saved = o; writable = writable } in
      Settled st p s candidate expected preflight (update st p s candidate expected preflight)
unfolding update
update-Settled_on st none writable s candidate expected preflight =
    Settled.refuses storage (Reason.no_value refl)
update-Settled_on st (some old) writable s candidate expected preflight =
    let p : Preferences SavedSettings = record { saved = some old; writable = writable } in
    let P : SettingsResult × Preferences SavedSettings × _ → Type 0 =
      Settled st p s candidate expected preflight in
    if_cases P (not writable) (λ h. Settled.refuses storage (Reason.not_writable (not-true _ h)))
      λ has_storage.
        if_cases P (not (expected == old.revision))
          (λ h. Settled.refuses conflict (Reason.is_stale old refl (stale _ _ h)))
          λ current.
            if_cases P (not (valid_device_settings candidate))
              (λ h. Settled.refuses invalid (Reason.is_invalid (not-true _ h)))
              λ valid.
                if_cases P (device_eq candidate old.value)
                  (λ h. Settled.refuses unchanged (Reason.is_same old refl h))
                  λ new.
                    if_cases P (not (preflight candidate))
                      (λ h. Settled.refuses invalid_schedule (Reason.does_not_fit (not-true _ h)))
                      λ fits.
                        if_cases P (old.revision == 0xFFFF_FFFF)
                          (λ h.
                            Settled.refuses conflict (Reason.is_last old refl ((==_iff _ _).0 h)))
                          λ last.
                            let ok : IsAcceptable st p s candidate expected preflight old = record {
                              is_saved = refl;
                              has_storage = not-false _ has_storage;
                              is_current = same _ _ current;
                              is_valid = not-false _ valid;
                              is_new = new;
                              fits = not-false _ fits;
                              has_next = different _ _ last;
                            } in
                            if_cases P (not (st.save (next_saved candidate old.revision) s).0)
                              (λ h. Settled.fails old ok (not-true _ h))
                              λ h. Settled.saves old ok (not-false _ h)

-- An update ends in one of three ways. It refuses the candidate, for the reason that its answer
-- names, and leaves memory and medium as they were; or the candidate passes every test and the
-- write of the next revision fails, which keeps the value in memory and closes the service; or the
-- write succeeds, and the answer `saved`, memory and the medium written agree on the next revision.
pub update-Settled :
    {S : Type 0} (st : Store S SavedSettings) (p : Preferences SavedSettings) (s : S)
    (candidate : DeviceSettings) (expected : ℕ) (preflight : DeviceSettings → Bool)
    → Settled st p s candidate expected preflight (update st p s candidate expected preflight)
update-Settled st p s candidate expected preflight =
    update-Settled_on st p.saved p.writable s candidate expected preflight
