-- ===== src/Device/Usb/Ready.antt =====
-- `usb_safe_` and `usb_selection_` of usb_upgrade.cpp: when an upgrade may go on, and which partition
-- the next start takes. What the application and the flash report is a record of answers.
use openathan.Base.{
  ℕ, ◌≡◌, ℤ, Bool, true, false, not, ◌&&◌, ◌||◌, Option, none, some, List, length, list_eq, ◌==◌,
  if◌then◌else◌, arith, pos, ◌≤ℤ◌, ◌+ℤ◌, Option-cases, ap, sym, ◌⊎◌, inl, inr, list_eq→eq,
}
use openathan.Scheduler.{Fault}
use openathan.Device.Release.{boot_scheduler_healthy, upgrade_window}
use openathan.Device.Release.Policy.{upgrade_window_open}
use openathan.Device.Usb.{Upgrade, UsbSelection, unknown, selected, unselected, rejected}

-- What `usb_safe_` asks the application, and `bootloader_ok_` and `server_ready_`.
pub record Conditions : Type 0 where
  pub updates_enabled : Bool
  pub bootloader_ok : Bool
  pub server_ready : Bool
  pub failed : Bool
  pub settings_healthy : Bool
  pub storage_fault : Bool
  pub upgrade_health : Bool
  pub background_busy : Bool
  pub playback_busy : Bool
  pub fault : Fault
  pub clock_valid : Bool
  pub activated : Bool
  pub automatic_ready : Bool
  pub utc : ℤ
  pub next : Option ℤ

unfoldable pub usb_safe : Upgrade → Conditions → Bool
usb_safe u c =
    if not c.updates_enabled || not u.confirmed || not u.storage_ok || not c.bootloader_ok
    then false
    else if not c.server_ready
        || c.failed
        || not c.settings_healthy
        || c.storage_fault
        || not c.upgrade_health
    then false
    else if c.background_busy || c.playback_busy || not (boot_scheduler_healthy c.fault)
    then false
    else not c.clock_valid || upgrade_window false true c.activated c.automatic_ready c.utc c.next

-- The state of an image, and what asking for it answers.
pub data ImageState : Type 0 where
  usable invalid aborted : ImageState

pub data StateResult : Type 0 where
  no_state state_error : StateResult
  state_is : ImageState → StateResult

-- The partitions by their number.
pub record Partitions : Type 0 where
  pub running : Option ℕ
  pub candidate : Option ℕ
  pub boot : Option ℕ
  pub described : Option (List ℕ)
  pub image_state : StateResult

abbrev describes : Option (List ℕ) → List ℕ → Bool
describes none version = false
describes (some found) version = list_eq version found

abbrev is_usable : StateResult → Bool
is_usable (state_is usable) = true
is_usable _ = false

abbrev is_spoiled : StateResult → Bool
is_spoiled (state_is invalid) = true
is_spoiled (state_is aborted) = true
is_spoiled _ = false

abbrev is_error : StateResult → Bool
is_error state_error = true
is_error _ = false

-- The tests on the selection, with the result of the description.
unfoldable pub selection_of : List ℕ → Bool → StateResult → ℕ → ℕ → Option ℕ → UsbSelection
selection_of expected identified result running candidate none = unknown
selection_of expected identified result running candidate (some boot) =
    let waiting = not (length expected == 0) in
    if not (boot == running) && not (boot == candidate)
    then unknown
    else if boot == candidate
    then (if not identified || not (is_usable result) then unknown else selected)
    else if (waiting && not identified) || is_error result
    then unknown
    else if waiting && identified && is_spoiled result
    then rejected
    else unselected

unfoldable pub usb_selection : Upgrade → Partitions → UsbSelection
usb_selection u p = elim p.running [
  | none ↦ unknown
  | some running ↦ elim p.candidate [
    | none ↦ unknown
    | some candidate ↦
        let identified = describes p.described u.queued.version in
        let result = if identified then p.image_state else no_state in
        let selection = selection_of u.expected identified result running candidate p.boot in
        if candidate == running || length u.queued.envelope == 0 then unknown else selection
  ]
]

selection_of-unselected :
    (expected : List ℕ) (identified : Bool) (result : StateResult) (running candidate : ℕ)
    (boot : Option ℕ)
    → selection_of expected identified result running candidate boot ≡ unselected
    → boot ≡ some running
unfolding selection_of
selection_of-unselected expected identified result running candidate none h = cc
selection_of-unselected expected identified result running candidate (some boot) h = ground arith

selection_of-selected :
    (expected : List ℕ) (identified : Bool) (result : StateResult) (running candidate : ℕ)
    (boot : Option ℕ)
    → selection_of expected identified result running candidate boot ≡ selected
    → (boot ≡ some candidate) × (identified ≡ true) × (is_usable result ≡ true)
unfolding selection_of
selection_of-selected expected identified result running candidate none h = cc
selection_of-selected expected identified result running candidate (some boot) h = ground arith

describes→eq :
    (d : Option (List ℕ)) (version : List ℕ) → describes d version ≡ true → d ≡ some version
describes→eq none version h = cc
describes→eq (some found) version h = ap some (sym (list_eq→eq version found h))

module _ (u : Upgrade) (p : Partitions) where
  abbrev identified : Bool
  identified = describes p.described u.queued.version

  abbrev result : StateResult
  result = if identified then p.image_state else no_state

  -- An interrupted upgrade counts as unselected only where the next start takes the running
  -- partition.
  pub usb_selection-unselected : usb_selection u p ≡ unselected → p.boot ≡ p.running
  unfolding usb_selection
  usb_selection-unselected h = elim (Option-cases p.running) [
    | inl e ↦ ground (arith, e, h)
    | inr (r, e) ↦ elim (Option-cases p.candidate) [
      | inl f ↦ ground (arith, e, f, h)
      | inr (c, f) ↦
          ground (arith, e, f, h, selection_of-unselected u.expected identified result r c p.boot)
    ]
  ]

  -- An interrupted upgrade counts as selected only where the next start takes the written
  -- partition, whose image has the queued version and is not spoiled.
  pub usb_selection-selected :
      usb_selection u p ≡ selected
      → (p.boot ≡ p.candidate)
        × (p.described ≡ some u.queued.version)
        × (is_usable p.image_state ≡ true)
  unfolding usb_selection
  usb_selection-selected h = elim (Option-cases p.running) [
    | inl e ↦ ground (arith, e, h)
    | inr (r, e) ↦ elim (Option-cases p.candidate) [
      | inl f ↦ ground (arith, e, f, h)
      | inr (c, f) ↦ ground (
        arith,
        e,
        f,
        h,
        selection_of-selected u.expected identified result r c p.boot,
        describes→eq p.described u.queued.version,
      )
    ]
  ]

safe_window :
    (u : Upgrade) (c : Conditions)
    → usb_safe u c ≡ true
    → (c.playback_busy ≡ false)
      × (c.background_busy ≡ false)
      × (u.storage_ok ≡ true)
      × ((c.clock_valid ≡ false)
          ⊎ (upgrade_window false true c.activated c.automatic_ready c.utc c.next ≡ true))
unfolding usb_safe
safe_window u c h = ground (arith, h)

-- With a right clock and a known next event, the safety test of an active device means that nothing
-- plays or works in the background, that the upgrade's storage works, and that the event is
-- fifteen minutes away at least.
pub usb_safe_quiet :
    (u : Upgrade) (c : Conditions) (next : ℤ)
    → c.clock_valid ≡ true
    → c.activated ≡ true
    → c.next ≡ some next
    → usb_safe u c ≡ true
    → (c.playback_busy ≡ false)
      × (c.background_busy ≡ false)
      × (u.storage_ok ≡ true)
      × (c.utc +ℤ pos 900 ≤ℤ next)
usb_safe_quiet u c next valid activated is h =
    let facts = safe_window u c h in
    elim facts.3 [
      | inl off ↦ cc (off, valid)
      | inr window ↦
          let active_window : upgrade_window false true true c.automatic_ready c.utc (some next)
              ≡ true =
            cc (activated, is, window) in
          let far = upgrade_window_open false true c.automatic_ready c.utc next active_window in
          (facts.0, facts.1, facts.2, far.3)
    ]
