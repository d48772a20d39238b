-- ===== src/Bytes/Signed.antt =====
-- `uint32_t(x)` of an `int32_t`, and back: two's complement.
use openathan.Base.{
  ℕ, ◌-◌, ◌%◌, ◌^◌, ◌≤◌, ◌<◌, ◌≡◌, ℤ, pos, negsuc, pos_part, neg_part, ltb, if◌then◌else◌, arith,
}
use openathan.Bytes.{u32_mod}

unfoldable pub to_u32 : ℤ → ℕ
to_u32 (pos n) = n % u32_mod
to_u32 (negsuc n) = u32_mod - 1 - n % u32_mod

unfoldable pub of_u32 : ℕ → ℤ
of_u32 w = if ltb w (2 ^ 31) then pos w else negsuc (u32_mod - 1 - w)

abbrev pub IsInt32 : ℤ → Type 0
IsInt32 z = (pos_part z < 2 ^ 31) × (neg_part z ≤ 2 ^ 31)

pub to_u32-lt : (z : ℤ) → to_u32 z < u32_mod
unfolding to_u32
to_u32-lt (pos n) = omega arith
to_u32-lt (negsuc n) = omega arith

pub of_u32-to_u32 : (z : ℤ) → IsInt32 z → of_u32 (to_u32 z) ≡ z
unfolding of_u32 to_u32
of_u32-to_u32 (pos n) h = ground arith
of_u32-to_u32 (negsuc n) h = ground arith

pub to_u32-of_u32 : (w : ℕ) → w < u32_mod → to_u32 (of_u32 w) ≡ w
unfolding of_u32 to_u32
to_u32-of_u32 w h = ground arith

pub of_u32-IsInt32 : (w : ℕ) → w < u32_mod → IsInt32 (of_u32 w)
unfolding of_u32
of_u32-IsInt32 w h = ground arith
