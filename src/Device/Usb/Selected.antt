-- ===== src/Device/Usb/Selected.antt =====
-- What is true of a selected boot partition after any calls.
use openathan.Base.{
  ℕ, ◌<◌, ◌≡◌, ◌⊎◌, inl, inr, sym, Bool, true, false, not, ◌&&◌, ◌||◌, Option, none, some, List, [],
  ◌∷◌, length, ◌==◌, if_both, if_passed, subst, arith,
}
use openathan.Bytes.{u32_mod}
use openathan.UsbUpgrade.{Chunk}
use openathan.Device.Release.{newer_release}
use openathan.Device.Usb.{
  begin, abort, verify, finish, other, is_begin, is_abort, size_of, field_is, text_interrupted,
  token_text, UpgradeRelease, Upgrade, Answers, Command, Reply, is_descriptor, is_receiving,
  usb_abort, begin_sized, abort_interrupted, token_command, begin_command, usb_command, usb_chunk,
}
use openathan.Device.Usb.Steps.{
  IsVerified, Before, Handed, Before-usb_abort, Before-begin_sized, Before-abort_interrupted,
  Before-descriptor_chunk, verified_cases, Before-image_chunk, Before-Receives, finish_cases,
}

-- What the signature check says of a descriptor that it accepts.
abbrev pub Checks : (List ℕ → Option UpgradeRelease) → Type 0
Checks signed =
    (e : List ℕ) (r : UpgradeRelease)
    → signed e ≡ some r
    → (r.envelope ≡ e) × (0 < length r.version) × (r.bytes < u32_mod)

-- What the build fixes, and a call over USB with what it meets.
pub record Build : Type 0 where
  pub enabled : Bool
  pub test_mode : Bool
  pub current : List ℕ

pub data Call : Type 0 where
  on_command : Answers → Command → List (List ℕ) → Call
  on_chunk : Answers → Chunk → Call

unfoldable pub apply :
    (List ℕ → Option UpgradeRelease) → (List ℕ → List ℕ) → Build → Upgrade → Call → Upgrade
apply signed sha256 b u (on_command a c fields) =
    (usb_command b.enabled b.test_mode b.current signed sha256 a u c fields).1
apply signed sha256 b u (on_chunk a c) = (usb_chunk b.enabled a u c).1

unfoldable pub run :
    (List ℕ → Option UpgradeRelease) → (List ℕ → List ℕ) → Build → Upgrade → List Call → Upgrade
run signed sha256 b u [] = u
run signed sha256 b u (x ∷ xs) = run signed sha256 b (apply signed sha256 b u x) xs

module _ (signed : List ℕ → Option UpgradeRelease) (sha256 : List ℕ → List ℕ) where
  Before-touched :
      (a : Answers) (u : Upgrade)
      → Before signed sha256 u
      → Before signed sha256 (record u { last_ms = a.now })
  unfolding Before
  Before-touched a u h = h

  abbrev Kept : Upgrade → Type 0
  Kept u = Before signed sha256 u ⊎ Handed signed sha256 u

  Handed-usb_command :
      (enabled test_mode : Bool) (current : List ℕ) (a : Answers) (u : Upgrade) (command : Command)
      (fields : List (List ℕ))
      → Handed signed sha256 u
      → (usb_command enabled test_mode current signed sha256 a u command fields).1 ≡ u
  unfolding usb_command begin_command begin_sized abort_interrupted Handed
  Handed-usb_command enabled test_mode current a u command fields h = ground arith

  Handed-usb_chunk :
      (enabled : Bool) (a : Answers) (u : Upgrade) (c : Chunk)
      → Handed signed sha256 u
      → (usb_chunk enabled a u c).1 ≡ u
  unfolding usb_chunk Handed
  Handed-usb_chunk enabled a u c h = ground arith

  Before-begin_command :
      (test_mode : Bool) (a : Answers) (u : Upgrade) (size : Option (Option ℕ))
      → Before signed sha256 u
      → Before signed sha256 (begin_command test_mode a u size).1
  unfolding begin_command
  Before-begin_command test_mode a u none h =
      if_both (λ (x : Reply). Before signed sha256 x.1) test_mode h h
  Before-begin_command test_mode a u (some size) h =
      if_both (λ (x : Reply). Before signed sha256 x.1) test_mode h
        (Before-begin_sized signed sha256 a u size h)

  token_positive : (u : Upgrade) (b : Bool) → (u.token == 0 || b) ≡ false → 0 < u.token
  token_positive u b h = ground arith

  selected-IsVerified :
      (u : Upgrade)
      → (u.boot_selected ≡ false) ⊎ IsVerified signed sha256 u
      → u.boot_selected ≡ true
      → IsVerified signed sha256 u
  selected-IsVerified u (inl off) on = cc
  selected-IsVerified u (inr is) on = is

  module _ (checks : Checks signed) where
    signed_release :
        (e : List ℕ) (r : UpgradeRelease)
        → signed e ≡ some r
        → (signed r.envelope ≡ some r) × (r.bytes < u32_mod)
    signed_release e r is =
        (subst (λ (x : List ℕ). signed x ≡ some r) (sym (checks e r is).0) is, (checks e r is).2)

    Kept-token_command :
        (current : List ℕ) (a : Answers) (u : Upgrade) (command : Command)
        → Before signed sha256 u
        → 0 < u.token
        → Kept (token_command signed sha256 current a u command).1
    unfolding token_command
    Kept-token_command current a u begin h token = inl h
    Kept-token_command current a u other h token = inl h
    Kept-token_command current a u abort h token =
        if_both (λ (x : Reply). Kept x.1) (not (usb_abort a.cleared u).0)
          (inl (Before-usb_abort signed sha256 a.cleared u h))
          (inl (Before-usb_abort signed sha256 a.cleared u h))
    Kept-token_command current a u verify h token =
        if_passed (λ (x : Reply). Kept x.1)
          (not (is_descriptor u.state) || not (length u.descriptor == u.descriptor_bytes)) (inl h)
          λ t. inl (
            verified_cases signed sha256 (λ v. newer_release v current) a u (signed u.descriptor) h
              (ground (arith, t)) (signed_release u.descriptor))
    Kept-token_command current a u finish h token =
        if_passed (λ (x : Reply). Kept x.1)
          (not (is_receiving u.state) || not (u.received == u.queued.bytes) || not a.safe) (inl h)
          λ t.
            let facts : (is_receiving u.state ≡ true) × (u.received ≡ u.queued.bytes) =
              ground (arith, t) in
            let r = Before-Receives signed sha256 u facts.0 token h in
            finish_cases signed sha256 a u h r facts.1 (checks u.queued.envelope u.queued r.5).1

    Kept-usb_command :
        (enabled test_mode : Bool) (current : List ℕ) (a : Answers) (u : Upgrade)
        (command : Command) (fields : List (List ℕ))
        → Before signed sha256 u
        → Kept (usb_command enabled test_mode current signed sha256 a u command fields).1
    unfolding usb_command
    Kept-usb_command enabled test_mode current a u command fields h =
        let P : Reply → Type 0 = λ x. Kept x.1 in
        if_both P (not enabled) (inl h) (
          if_both P (is_begin command) (inl (Before-begin_command test_mode a u (size_of fields) h))
            (if_both P
              (is_abort command && field_is fields text_interrupted && u.request && u.token == 0)
              (inl (Before-abort_interrupted signed sha256 a u h))
              (if_passed P (u.token == 0 || not (field_is fields (token_text u.token))) (inl h) λ t.
                Kept-token_command current a (record u { last_ms = a.now }) command
                  (Before-touched a u h) (token_positive u _ t))))

    Kept-usb_chunk :
        (enabled : Bool) (a : Answers) (u : Upgrade) (c : Chunk)
        → Before signed sha256 u
        → Before signed sha256 (usb_chunk enabled a u c).1
    unfolding usb_chunk
    Kept-usb_chunk enabled a u c h =
        let P : Bool × Upgrade → Type 0 = λ x. Before signed sha256 x.1 in
        if_both P (not enabled || u.token == 0 || not (c.token == u.token)) h (
          if_both P (c.kind == 0) (Before-descriptor_chunk signed sha256 a u c h)
            (Before-image_chunk signed sha256 a u c h))

    Kept-apply : (b : Build) (u : Upgrade) (x : Call) → Kept u → Kept (apply signed sha256 b u x)
    unfolding apply
    Kept-apply b u (on_command a c fields) (inl h) =
        Kept-usb_command b.enabled b.test_mode b.current a u c fields h
    Kept-apply b u (on_command a c fields) (inr h) =
        rw (Handed-usb_command b.enabled b.test_mode b.current a u c fields h) (inr h)
    Kept-apply b u (on_chunk a c) (inl h) = inl (Kept-usb_chunk b.enabled a u c h)
    Kept-apply b u (on_chunk a c) (inr h) = rw (Handed-usb_chunk b.enabled a u c h) (inr h)

    Kept-run : (b : Build) (u : Upgrade) (xs : List Call) → Kept u → Kept (run signed sha256 b u xs)
    unfolding run
    Kept-run b u [] h = h
    Kept-run b u (x ∷ xs) h = Kept-run b (apply signed sha256 b u x) xs (Kept-apply b u x h)

    Kept-IsVerified : (u : Upgrade) → Kept u → u.boot_selected ≡ true → IsVerified signed sha256 u
    unfolding Before Handed
    Kept-IsVerified u (inl h) on = cc
    Kept-IsVerified u (inr h) on = selected-IsVerified u h.3 on

    -- After any commands and chunks over USB on a device whose boot partition is not yet another, and
    -- that has no transfer and no stored handoff, the new partition is selected only with an image
    -- that has the length and the hash of a release whose descriptor passed the signature check, and
    -- with this release and its version in the stored request. The check is one whose releases carry
    -- their envelope, have a version and a size of 32 bits.
    pub run-IsVerified :
        (b : Build) (u : Upgrade) (xs : List Call)
        → u.boot_selected ≡ false
        → u.expected ≡ []
        → is_descriptor u.state ≡ false
        → is_receiving u.state ≡ false
        → (run signed sha256 b u xs).boot_selected ≡ true
        → IsVerified signed sha256 (run signed sha256 b u xs)
    unfolding Before
    run-IsVerified b u xs off none_expected no_descriptor not_receiving on =
        Kept-IsVerified (run signed sha256 b u xs)
          (Kept-run b u xs (inl (ground (arith, off, none_expected, no_descriptor, not_receiving))))
          on
