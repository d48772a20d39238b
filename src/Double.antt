-- ===== src/Double.antt =====
-- The doubles of `Settings`, as the 64 bits of IEEE 754 binary64 (what `std::bit_cast<uint64_t>` in
-- lib/openathan-core/src/settings.cpp gives): 1 sign bit, 11 of exponent, 52 of fraction. Only the
-- tests that the source makes are here; between doubles of one sign the order is that of the bits.
use openathan.Base.{ℕ, ◌/◌, ◌%◌, ◌^◌, Bool, not, ◌&&◌, ◌||◌, leb, ◌==◌}

abbrev pub magnitude : ℕ → ℕ
magnitude x = x % 2 ^ 63

-- `std::isfinite`: the exponent is not all ones.
unfoldable pub is_finite : ℕ → Bool
is_finite x = not (x / 2 ^ 52 % 2 ^ 11 == 2047)

-- `std::abs(x) <= 90` and `std::abs(x) <= 180` at a finite `x`, by the bits of 90.0 and 180.0.
unfoldable pub abs_le_90 : ℕ → Bool
abs_le_90 x = leb (magnitude x) 0x4056800000000000

unfoldable pub abs_le_180 : ℕ → Bool
abs_le_180 x = leb (magnitude x) 0x4066800000000000

unfoldable pub is_nan : ℕ → Bool
is_nan x = not (leb (magnitude x) 0x7FF0000000000000)

-- `==` on doubles: no NaN is equal to anything, and 0.0 is equal to -0.0.
unfoldable pub double_eq : ℕ → ℕ → Bool
double_eq a b =
    not (is_nan a) && not (is_nan b) && (a == b || (magnitude a == 0 && magnitude b == 0))
