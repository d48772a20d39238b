-- ===== src/Rtc/Interrupted.antt =====
-- `save_` that stops anywhere, by a bus error or with the power, and the next `restore_`: a date
-- in the clock chip is taken only if it was not touched or was verified.
use openathan.Base.{
  ℕ, ◌+◌, ◌≤◌, ◌≡◌, ◌⊎◌, inl, inr, refl, sym, ◌∙◌, Bool, true, false, some, List, [], ◌∷◌, length,
  get_or, Bool-cases, Option-cases, ==_iff, arith, ◌==◌, ◌≢◌,
}
use openathan.Rtc.{
  I2c, EspClock, EspTime, RtcResult, write_byte, marker, stop_bit, preserve_control, value_of,
  decode, in_time, saveable, restore, restore_from, program, verify, save_over, save,
}

-- How the chip keeps register 3, whose value in a state is `held`. A write of one byte that fails
-- may have been made all the same, and a write to other registers leaves it alone.
pub record KeepsMarker {S : Type 0} (i2c : I2c S) (held : S → ℕ) : Type 0 where
  pub read_held : (a n : ℕ) (s : S) → held (i2c.read_bytes a n s).1 ≡ held s
  pub read_image :
      (raw : List ℕ) (s : S) → (i2c.read_bytes 0 11 s).0 ≡ some raw → get_or raw 3 0 ≡ held s
  pub write_elsewhere :
      (a : ℕ) (xs : List ℕ) (s : S)
      → (a + length xs ≤ 3) ⊎ ((4 ≤ a) × (a + length xs ≤ 18))
      → held (i2c.write_bytes a xs s).1 ≡ held s
  pub write_done :
      (v : ℕ) (s : S)
      → (i2c.write_bytes 3 (v ∷ []) s).0 ≡ true
      → held (i2c.write_bytes 3 (v ∷ []) s).1 ≡ v
  pub write_failed :
      (v : ℕ) (s : S)
      → (i2c.write_bytes 3 (v ∷ []) s).0 ≡ false
      → (held (i2c.write_bytes 3 (v ∷ []) s).1 ≡ held s)
        ⊎ (held (i2c.write_bytes 3 (v ∷ []) s).1 ≡ v)

-- Why the chip may be trusted in `s'`, after a save of `now` that began in `s`.
pub data Trusted {S : Type 0} (i2c : I2c S) (clock : EspClock) (now : EspTime) (s s' : S)
    : Type 0 where
  -- Nothing was asked of it.
  untouched : s' ≡ s → Trusted i2c clock now s s'
  -- It was only read.
  only_read : s' ≡ (i2c.read_bytes 0 11 s).1 → Trusted i2c clock now s s'
  -- The first write, which takes the marker away, failed, and there was no other.
  unwritten :
      (write_byte i2c 3 0 (i2c.read_bytes 0 11 s).1).0 ≡ false
      → s' ≡ (write_byte i2c 3 0 (i2c.read_bytes 0 11 s).1).1
      → Trusted i2c clock now s s'
  -- All registers were written, and what was read back then is the time, two seconds later at most.
  read_back :
      (control : ℕ) (raw : List ℕ) (t : EspTime)
      → (program i2c control now (i2c.read_bytes 0 11 s).1).0 ≡ true
      → (i2c.read_bytes 0 11 (program i2c control now (i2c.read_bytes 0 11 s).1).1).0 ≡ some raw
      → decode clock raw ≡ some t
      → in_time now t ≡ true
      → Trusted i2c clock now s s'

zero_marker : 0 ≢ marker
zero_marker h = cc

module _ {S : Type 0} (i2c : I2c S) (clock : EspClock) (held : S → ℕ)
    (keeps : KeepsMarker i2c held) where
  -- What the four writes leave: the failure of the first alone, or no marker.
  program_held :
      (control : ℕ) (now : EspTime) (s : S)
      → (((write_byte i2c 3 0 s).0 ≡ false)
          × ((program i2c control now s).0 ≡ false)
          × ((program i2c control now s).1 ≡ (write_byte i2c 3 0 s).1))
        ⊎ (held (program i2c control now s).1 ≡ 0)
  unfolding program value_of
  program_held control now s =
      let unmarked = write_byte i2c 3 0 s in
      let stopped = write_byte i2c 0 (control + stop_bit) unmarked.1 in
      let written = i2c.write_bytes 4 (value_of now) stopped.1 in
      elim (Bool-cases unmarked.0) [
        | inr bad ↦ inl (bad, rw (bad, program) bad, rw (bad, program) refl)
        | inl done ↦
            let h1 = keeps.write_done 0 s done in
            let h2 =
              keeps.write_elsewhere 0 ((control + stop_bit) ∷ []) unmarked.1 (inl (omega arith))
              ∙ h1 in
            let h3 =
              keeps.write_elsewhere 4 (value_of now) stopped.1 (inr (omega arith, omega arith))
              ∙ h2 in
            let h4 = keeps.write_elsewhere 0 (control ∷ []) written.1 (inl (omega arith)) ∙ h3 in
            inr (elim (Bool-cases stopped.0) [
              | inr bad ↦ rw (done, bad, program) h2
              | inl going ↦ elim (Bool-cases written.0) [
                | inr bad ↦ rw (done, going, bad, program) h3
                | inl all ↦ rw (done, going, all, program) h4
              ]
            ])
      ]

  -- A register 3 without the marker has it after the second read only where that read was verified.
  verify-held :
      (now : EspTime) (s : S)
      → held s ≡ 0
      → held (verify i2c clock now s).1 ≡ marker
      → (raw : List ℕ) × (t : EspTime) × ((i2c.read_bytes 0 11 s).0 ≡ some raw)
        × (decode clock raw ≡ some t)
        × (in_time now t ≡ true)
  unfolding verify
  verify-held now s gone h =
      let still = keeps.read_held 0 11 s ∙ gone in
      elim (Option-cases (i2c.read_bytes 0 11 s).0) [
        | inl failed ↦ absurd (zero_marker (sym still ∙ (rw (failed, verify) at h)))
        | inr (raw, got) ↦ elim (Option-cases (decode clock raw)) [
          | inl bad ↦ absurd (zero_marker (sym still ∙ (rw (got, bad, verify) at h)))
          | inr (t, good) ↦ elim (Bool-cases (in_time now t)) [
            | inr late ↦ absurd (zero_marker (sym still ∙ (rw (got, good, late, verify) at h)))
            | inl soon ↦ (raw, t, got, good, soon)
          ]
        ]
      ]

  save_over-Trusted :
      (now : EspTime) (image : List ℕ) (s : S)
      → held (save_over i2c clock now image (i2c.read_bytes 0 11 s).1).1 ≡ marker
      → Trusted i2c clock now s (save_over i2c clock now image (i2c.read_bytes 0 11 s).1).1
  unfolding save_over
  save_over-Trusted now image s h =
      let s1 = (i2c.read_bytes 0 11 s).1 in
      let control = preserve_control (get_or image 0 0) in
      elim (program_held control now s1) [
        | inl (bad, stop, same) ↦ rw (stop, save_over) (unwritten bad same)
        | inr gone ↦ elim (Bool-cases (program i2c control now s1).0) [
          | inr stop ↦ absurd (zero_marker (sym gone ∙ (rw (stop, save_over) at h)))
          | inl went ↦
              let v =
                verify-held now (program i2c control now s1).1 gone (rw (went, save_over) at h) in
              read_back control v.0 v.1 went v.2 v.3 v.4
        ]
      ]

  save-Trusted :
      (completed : Bool) (now : EspTime) (before : RtcResult) (s : S)
      → held (save i2c clock completed now before s).1 ≡ marker
      → Trusted i2c clock now s (save i2c clock completed now before s).1
  unfolding save
  save-Trusted false now before s h = untouched refl
  save-Trusted true now before s h = elim (Bool-cases (saveable clock now)) [
    | inr bad ↦ rw (bad, save) (untouched refl)
    | inl fine ↦ elim (Option-cases (i2c.read_bytes 0 11 s).0) [
      | inl failed ↦ rw (fine, failed, save) (only_read refl)
      | inr (image, got) ↦
          rw (fine, got, save) (save_over-Trusted now image s (rw (fine, got, save) at h))
    ]
  ]

  restore_from-marked :
      (valid synchronized : Bool) (raw : List ℕ) (epoch : ℕ)
      → (restore_from clock valid synchronized raw).1 ≡ some epoch
      → get_or raw 3 0 ≡ marker
  unfolding restore_from
  restore_from-marked valid synchronized raw epoch h =
      elim (Bool-cases (get_or raw 3 0 == marker)) [
        | inl same ↦ (==_iff (get_or raw 3 0) marker).0 same
        | inr other ↦ absurd (cc (rw other at h))
      ]

  restore-held :
      (valid still synchronized : Bool) (s : S) (epoch : ℕ)
      → (restore i2c clock valid still synchronized s).0.1 ≡ some epoch
      → held s ≡ marker
  unfolding restore
  restore-held true still synchronized s epoch h = absurd (cc h)
  restore-held false still synchronized s epoch h = elim (Option-cases (i2c.read_bytes 0 11 s).0) [
    | inl failed ↦ absurd (cc (rw failed at h))
    | inr (raw, got) ↦
        sym (keeps.read_image raw s got)
        ∙ restore_from-marked still synchronized raw epoch (rw got at h)
  ]

  -- However a save ends, by a bus error at any of its calls or because the power fails there, a later
  -- restore that sets the system's clock finds a chip that the save has not touched but by reads or
  -- by the one failed write that takes the marker away, or whose registers the save has all written
  -- and then read back as a valid time, no earlier than the time that it saved and at most two
  -- seconds later. The chip is any that keeps register 3 through reads and through writes elsewhere,
  -- and the restore may run on any later state in which that register is the same.
  pub restore-save :
      (completed : Bool) (now : EspTime) (before : RtcResult) (s later : S)
      (valid still synchronized : Bool) (epoch : ℕ)
      → held later ≡ held (save i2c clock completed now before s).1
      → (restore i2c clock valid still synchronized later).0.1 ≡ some epoch
      → Trusted i2c clock now s (save i2c clock completed now before s).1
  restore-save completed now before s later valid still synchronized epoch same h =
      save-Trusted completed now before s
        (sym same ∙ restore-held valid still synchronized later epoch h)
