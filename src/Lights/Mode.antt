-- ===== src/Lights/Mode.antt =====
-- `light_mode` and `prayer_proximity`: the light's mode from the settings and the device's inputs.
use openathan.Base.{
  ℕ, ◌≤◌, ◌<◌, ◌≡◌, ◌≢◌, ℤ, pos, ◌-ℤ◌, ◌≤ℤ◌, leb_ℤ, Bool, not, ◌||◌, Option, none, some, ◌==◌, ◌⊎◌,
  if◌then◌else◌, arith, -ℤ_parts,
}
use openathan.Lights.{LightSettings}

pub data LightMode : Type 0 where
  off green orange red playing_mode waiting fault_mode : LightMode

pub record LightInputs : Type 0 where
  pub maintenance : Bool
  pub fault : Bool
  pub setup_complete : Bool
  pub clock_ready : Bool
  pub playing : Bool
  pub next_utc : Option ℤ
  pub utc : ℤ

unfoldable pub prayer_proximity : ℤ → LightMode
prayer_proximity remaining_seconds =
    if leb_ℤ remaining_seconds (pos 0)
    then off
    else if leb_ℤ remaining_seconds (pos 600)
    then red
    else if leb_ℤ remaining_seconds (pos 1800)
    then orange
    else green

-- The last two lines of `light_mode`.
countdown : Option ℤ → ℤ → LightMode
unfolding prayer_proximity
countdown none utc = off
countdown (some next) utc = if leb_ℤ next utc then off else prayer_proximity (next -ℤ utc)

unfoldable pub light_mode : LightSettings → LightInputs → LightMode
unfolding countdown
light_mode s i =
    if not s.enabled || s.brightness_percent == 0 || i.maintenance
    then off
    else if i.fault
    then fault_mode
    else if not i.setup_complete || not i.clock_ready
    then waiting
    else if i.playing
    then playing_mode
    else countdown i.next_utc i.utc

-- How near a prayer a mode stands for.
abbrev pub nearness : LightMode → ℕ
nearness green = 1
nearness orange = 2
nearness red = 3
nearness _ = 0

countdown_approach :
    (next : Option ℤ) (earlier later : ℤ)
    → earlier ≤ℤ later
    → countdown next later ≢ off
    → (nearness (countdown next earlier) ≤ nearness (countdown next later))
      × (0 < nearness (countdown next earlier))
unfolding countdown prayer_proximity
countdown_approach none earlier later h lit = ground arith
countdown_approach (some next) earlier later h lit =
    ground (arith, -ℤ_parts next earlier, -ℤ_parts next later)

-- With all other inputs equal and the next prayer still ahead of the later time, the mode at the
-- later time is the same signal (fault, waiting or playing) or a colour of the countdown that is at
-- least as near to the prayer, in the order green, orange, red.
pub light_mode_approach :
    (s : LightSettings) (i : LightInputs) (later : ℤ)
    → i.utc ≤ℤ later
    → light_mode s (record i { utc = later }) ≢ off
    → let then_mode = light_mode s (record i { utc = later }) in
      ((light_mode s i ≡ then_mode) ⊎ (0 < nearness (light_mode s i)))
      × (nearness (light_mode s i) ≤ nearness then_mode)
unfolding light_mode
light_mode_approach s i later h lit = ground (arith, countdown_approach i.next_utc i.utc later h)
