-- ===== src/DuaPreference/Record.antt =====
-- `encode_dua` and `decode_dua`: the sixteen-byte record. A record is a list of sixteen
-- bytes.
use openathan.Base.{
  Bool, true, false, ℕ, All, get_or-lt, ◌≤◌, ◌<◌, ◌≡◌, ◌↔◌, not, ◌||◌, Option, none, some, List,
  ◌∷◌, ltb, ◌==◌, if◌then◌else◌, get_or, set, take, replicate, list_eq, list_eq→eq, list_eq_self,
  arith,
}
use openathan.Bytes.{put_u32, read_u32, crc32, crc32-lt, u32_mod, word_bytes}
use openathan.DuaPreference.{SavedDua}

-- `bool` as a byte.
abbrev pub byte_of : Bool → ℕ
byte_of true = 1
byte_of false = 0

abbrev checksum : List ℕ → ℕ
checksum record_bytes = crc32 (take 12 record_bytes)

-- `DuaRecord record{'O', 'A', 'D', 1}`.
abbrev blank : List ℕ
blank = b'O' ∷ b'A' ∷ b'D' ∷ 1 ∷ replicate 12 0

unfoldable pub encode_dua : SavedDua → List ℕ
encode_dua value =
    let body = set (put_u32 blank 4 value.revision) 8 (byte_of value.enabled) in
    put_u32 body 12 (checksum body)

unfoldable pub decode_dua : List ℕ → Option SavedDua
decode_dua r =
    let candidate : SavedDua = record { revision = read_u32 r 4; enabled = get_or r 8 0 == 1 } in
    if not (read_u32 r 12 == checksum r) || ltb 1 (get_or r 8 0) || read_u32 r 4 == 0
    then none
    else if not (list_eq (encode_dua candidate) r)
    then none
    else some candidate

abbrev pub IsStorable : SavedDua → Type 0
IsStorable v = (1 ≤ v.revision) × (v.revision < u32_mod)

-- A storable value is read back from its record.
pub decode_dua-encode_dua : (v : SavedDua) → IsStorable v → decode_dua (encode_dua v) ≡ some v
unfolding decode_dua encode_dua
decode_dua-encode_dua v h =
    ground
      (arith, crc32-lt (take 12 (encode_dua v)), list_eq_self (encode_dua v), word_bytes v.revision)

-- Of a list of bytes the decoder accepts exactly the records of storable values (revision from 1
-- below 2^32), and returns the value of which the list is the record.
pub decode_dua_iff :
    (r : List ℕ) (v : SavedDua)
    → All (λ b. b < 256) r
    → (decode_dua r ≡ some v) ↔ (IsStorable v × (r ≡ encode_dua v))
unfolding decode_dua
decode_dua_iff r v h = (
  λ e. ground (
    arith,
    list_eq→eq (encode_dua v) r,
    get_or-lt r 4 h,
    get_or-lt r 5 h,
    get_or-lt r 6 h,
    get_or-lt r 7 h,
  ),
  λ (ok, e). rw e (decode_dua-encode_dua v ok),
)
