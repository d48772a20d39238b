-- ===== src/Lights/Frame.antt =====
-- `light_frame`: the colour and brightness of a mode at a moment. The pulse is computed on 32-bit
-- words, whose wrap-around is written out.
use openathan.Base.{
  ℕ, ◌+◌, ◌-◌, ◌*◌, ◌/◌, ◌%◌, ◌≤◌, ◌<◌, ◌≡◌, ◌≢◌, ◌⊎◌, ap, ◌∙◌, leb, ltb, ◌==◌, if◌then◌else◌,
  arith,
}
use openathan.Bytes.{u32_mod}
use openathan.Lights.Mode.{LightMode, off, green, orange, red, playing_mode, waiting, fault_mode}

pub record LightFrame : Type 0 where
  pub red_part : ℕ
  pub green_part : ℕ
  pub blue_part : ℕ
  pub brightness : ℕ

abbrev pub frame_of : ℕ → ℕ → ℕ → ℕ → LightFrame
frame_of r g b brightness = record {
  red_part = r;
  green_part = g;
  blue_part = b;
  brightness = brightness;
}

-- `level`: 26 to 255, up and down in three seconds.
pulse_x : ℕ → ℕ
pulse_x ms =
    let phase = ms % 3000 in
    (if leb phase 1500 then phase else 3000 - phase) * 1024 / 1500 % u32_mod

eased : ℕ → ℕ
eased x = x * x * (3072 - 2 * x) % u32_mod / (1024 * 1024)

unfoldable pub pulse_level : ℕ → ℕ
unfolding pulse_x eased
pulse_level ms = 26 + eased (pulse_x ms) * 229 / 1024

dimmed : ℕ → ℕ → ℕ
dimmed brightness level =
    if brightness == 0
    then 0
    else let scaled = brightness * level / 255 in if ltb scaled 1 then 1 else scaled

capped : ℕ → ℕ
capped brightness = if leb brightness 100 then brightness else 100

unfoldable pub light_frame : LightMode → ℕ → ℕ → LightFrame
unfolding dimmed capped pulse_level
light_frame off brightness ms = frame_of 0 0 0 0
light_frame green brightness ms = frame_of 0 255 0 (capped brightness)
light_frame orange brightness ms = frame_of 255 96 0 (capped brightness)
light_frame red brightness ms = frame_of 255 0 0 (capped brightness)
light_frame fault_mode brightness ms =
    frame_of 255 0 0 (dimmed (capped brightness) (pulse_level ms))
light_frame playing_mode brightness ms =
    frame_of 0 0 255 (dimmed (capped brightness) (pulse_level ms))
light_frame waiting brightness ms =
    frame_of 255 255 255 (dimmed (capped brightness) (pulse_level ms))

pulse_x-le : (ms : ℕ) → pulse_x ms ≤ 1024
unfolding pulse_x
pulse_x-le ms = ground arith

-- The smoothstep of `x` and that of its mirror image add up to the whole.
mirror : (x y : ℕ) → x + y ≡ 1024 → x * x * (1024 + 2 * y) + y * y * (1024 + 2 * x) ≡ 1_073_741_824
mirror x y e = omega (
  arith,
  ap (λ (t : ℕ). t * t * t) e,
  ap (λ (t : ℕ). x * x * t) e,
  ap (λ (t : ℕ). x * y * t) e,
  ap (λ (t : ℕ). y * y * t) e,
)

cubic-le : (x : ℕ) → x ≤ 1024 → x * x * (3072 - 2 * x) ≤ 1_073_741_824
cubic-le x h =
    let e : 3072 - 2 * x ≡ 1024 + 2 * (1024 - x) = omega arith in
    rw (e) (omega (arith, mirror x (1024 - x) (omega arith)))

eased-le : (x : ℕ) → x ≤ 1024 → eased x ≤ 1024
unfolding eased
eased-le x h = omega (arith, cubic-le x h)

pulse_level_bounds : (ms : ℕ) → (26 ≤ pulse_level ms) × (pulse_level ms ≤ 255)
unfolding pulse_level
pulse_level_bounds ms = ground (arith, eased-le (pulse_x ms) (pulse_x-le ms))

-- The level without the wrap-around of 32-bit words.
abbrev unbounded_x : ℕ → ℕ
unbounded_x ms =
    let phase = ms % 3000 in (if leb phase 1500 then phase else 3000 - phase) * 1024 / 1500

abbrev unbounded_level : ℕ → ℕ
unbounded_level x = 26 + x * x * (3072 - 2 * x) / (1024 * 1024) * 229 / 1024

pulse_x-unbounded_x : (ms : ℕ) → pulse_x ms ≡ unbounded_x ms
unfolding pulse_x
pulse_x-unbounded_x ms = ground arith

unbounded_level-eased : (x : ℕ) → x ≤ 1024 → 26 + eased x * 229 / 1024 ≡ unbounded_level x
unfolding eased
unbounded_level-eased x h = omega (arith, cubic-le x h)

-- The words of the pulse never overflow: at every moment the level is the one that unbounded
-- integers give.
pub pulse_level_exact : (ms : ℕ) → pulse_level ms ≡ unbounded_level (unbounded_x ms)
unfolding pulse_level
pulse_level_exact ms =
    unbounded_level-eased (pulse_x ms) (pulse_x-le ms) ∙ ap unbounded_level (pulse_x-unbounded_x ms)

dimmed_bounds : (b level : ℕ) → level ≤ 255 → (dimmed b level ≤ b) × (0 < b → 0 < dimmed b level)
unfolding dimmed
dimmed_bounds b level h =
    let whole : level + (255 - level) ≡ 255 = omega arith in
    ground (arith, ap (λ (t : ℕ). b * t) whole)

light_frame_bounds :
    (mode : LightMode) (brightness ms : ℕ)
    → let shown = (light_frame mode brightness ms).brightness in
      (shown ≤ brightness) × (shown ≤ 100) × ((mode ≡ off) ⊎ ((brightness ≡ 0) ⊎ (0 < shown)))
unfolding light_frame capped
light_frame_bounds mode brightness ms = ground (
  arith,
  dimmed_bounds brightness (pulse_level ms) (pulse_level_bounds ms).1,
  dimmed_bounds 100 (pulse_level ms) (pulse_level_bounds ms).1,
)

-- A frame is never brighter than the chosen percentage nor than a hundred per cent.
pub light_frame_brightness :
    (mode : LightMode) (brightness ms : ℕ)
    → ((light_frame mode brightness ms).brightness ≤ brightness)
      × ((light_frame mode brightness ms).brightness ≤ 100)
light_frame_brightness mode brightness ms =
    let facts = light_frame_bounds mode brightness ms in (facts.0, facts.1)

-- In every mode but `off`, a chosen percentage above zero stays visible at every moment.
pub light_frame_visible :
    (mode : LightMode) (brightness ms : ℕ)
    → mode ≢ off
    → 0 < brightness
    → 0 < (light_frame mode brightness ms).brightness
light_frame_visible mode brightness ms lit chosen =
    ground (arith, light_frame_bounds mode brightness ms)
