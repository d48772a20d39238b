-- ===== src/Bytes.antt =====
-- Little-endian words in byte records, and the CRC-32 that closes each record. The source repeats
-- the three loops in each record file (lib/openathan-core/src/display.cpp and its siblings); the
-- reader is also `read_u32` of include/openathan/audio_image.h.
pub mod Signed
use Prim.Native.Nat.{bit_xor}
use openathan.Base.{
  ℕ, zero, suc, ◌+◌, ◌-◌, ◌*◌, ◌/◌, ◌%◌, ◌^◌, ◌<◌, ◌≡◌, refl, List, [], ◌∷◌, get_or, set, ◌==◌,
  if◌then◌else◌, arith,
}

abbrev pub u32_mod : ℕ
u32_mod = 2 ^ 32

-- `record[at + i] = value >> (8 * i)` for i below the first argument.
abbrev pub put_bytes : ℕ → List ℕ → ℕ → ℕ → List ℕ
put_bytes zero r at v = r
put_bytes (suc n) r at v = put_bytes n (set r at (v % 256)) (at + 1) (v / 256)

abbrev pub put_u32 : List ℕ → ℕ → ℕ → List ℕ
put_u32 r at v = put_bytes 4 r at v

-- The same bytes, appended to a record that is filled from its start.
abbrev pub bytes_of : ℕ → ℕ → List ℕ
bytes_of zero v = []
bytes_of (suc n) v = v % 256 ∷ bytes_of n (v / 256)

-- `value |= uint32_t(record[at + i]) << (8 * i)`: the bytes do not overlap.
abbrev pub read_bytes : ℕ → List ℕ → ℕ → ℕ
read_bytes zero r at = 0
read_bytes (suc n) r at = get_or r at 0 + 256 * read_bytes n r (at + 1)

abbrev pub read_u32 : List ℕ → ℕ → ℕ
read_u32 r at = read_bytes 4 r at

-- `value = (value >> 1) ^ ((value & 1) ? 0xEDB88320 : 0)`, as often as the first argument says.
crc_bits : ℕ → ℕ → ℕ
crc_bits zero v = v
crc_bits (suc n) v = crc_bits n (bit_xor (v / 2) (if v % 2 == 1 then 0xEDB88320 else 0))

crc_bytes : ℕ → List ℕ → ℕ
unfolding crc_bits
crc_bytes v [] = v
crc_bytes v (b ∷ bs) = crc_bytes (crc_bits 8 (bit_xor v b)) bs

-- `~value` on 32 bits.
unfoldable pub crc32 : List ℕ → ℕ
unfolding crc_bytes
crc32 bytes = 0xFFFF_FFFF - crc_bytes 0xFFFF_FFFF bytes

pub crc32-lt : (bytes : List ℕ) → crc32 bytes < u32_mod
unfolding crc32
crc32-lt bytes = omega arith

-- Four bytes written and read back.
pub word_bytes :
    (v : ℕ)
    → v < u32_mod
    → v % 256
        + 256
          * (v / 256 % 256
              + 256 * (v / 256 / 256 % 256 + 256 * (v / 256 / 256 / 256 % 256 + 256 * 0)))
      ≡ v
word_bytes v h = omega arith

-- Eight bytes written and read back.
pub double_word_bytes :
    (t : ℕ)
    → t < 2 ^ 64
    → t % 256
        + 256
          * (t / 256 % 256
              + 256
                * (t / 256 / 256 % 256
                    + 256
                      * (t / 256 / 256 / 256 % 256
                          + 256
                            * (t / 256 / 256 / 256 / 256 % 256
                                + 256
                                  * (t / 256 / 256 / 256 / 256 / 256 % 256
                                      + 256
                                        * (t / 256 / 256 / 256 / 256 / 256 / 256 % 256
                                            + 256
                                              * (t / 256 / 256 / 256 / 256 / 256 / 256 / 256 % 256
                                                  + 256 * 0)))))))
      ≡ t
double_word_bytes t h = omega arith

crc_check : crc32 (b'1' ∷ b'2' ∷ b'3' ∷ b'4' ∷ b'5' ∷ b'6' ∷ b'7' ∷ b'8' ∷ b'9' ∷ []) ≡ 0xCBF43926
unfolding crc32
crc_check = refl
