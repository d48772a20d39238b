-- ===== src/TimeFormat/Record.antt =====
-- `encode_time_format` and `decode_time_format`: the sixteen-byte record. A record is a list of sixteen
-- bytes.
use openathan.Base.{
  ℕ, All, get_or-lt, ◌≤◌, ◌<◌, ◌≡◌, ◌↔◌, not, ◌||◌, ◌&&◌, ◌⊎◌, Option, none, some, List, ◌∷◌, ◌==◌,
  if◌then◌else◌, get_or, set, take, replicate, list_eq, list_eq→eq, list_eq_self, arith,
}
use openathan.Bytes.{put_u32, read_u32, crc32, crc32-lt, u32_mod, word_bytes}
use openathan.TimeFormat.{SavedTimeFormat}

abbrev checksum : List ℕ → ℕ
checksum record_bytes = crc32 (take 12 record_bytes)

-- `TimeFormatRecord record{'O', 'A', 'T', 1}`.
abbrev blank : List ℕ
blank = b'O' ∷ b'A' ∷ b'T' ∷ 1 ∷ replicate 12 0

unfoldable pub encode_time_format : SavedTimeFormat → List ℕ
encode_time_format value =
    let body = set (put_u32 blank 4 value.revision) 8 value.hours in put_u32 body 12 (checksum body)

unfoldable pub decode_time_format : List ℕ → Option SavedTimeFormat
decode_time_format r =
    let candidate : SavedTimeFormat = record { revision = read_u32 r 4; hours = get_or r 8 0 } in
    if not (read_u32 r 12 == checksum r)
      || (not (get_or r 8 0 == 12) && not (get_or r 8 0 == 24))
      || read_u32 r 4 == 0
    then none
    else if not (list_eq (encode_time_format candidate) r)
    then none
    else some candidate

abbrev pub IsStorable : SavedTimeFormat → Type 0
IsStorable v = (1 ≤ v.revision) × (v.revision < u32_mod) × ((v.hours ≡ 12) ⊎ (v.hours ≡ 24))

-- A storable value is read back from its record.
pub decode_time_format-encode_time_format :
    (v : SavedTimeFormat) → IsStorable v → decode_time_format (encode_time_format v) ≡ some v
unfolding decode_time_format encode_time_format
decode_time_format-encode_time_format v h = ground (
  arith,
  crc32-lt (take 12 (encode_time_format v)),
  list_eq_self (encode_time_format v),
  word_bytes v.revision,
)

-- Of a list of bytes the decoder accepts exactly the records of storable values (revision from 1
-- below 2^32, 12 or 24 hours), and returns the value of which the list is the record.
pub decode_time_format_iff :
    (r : List ℕ) (v : SavedTimeFormat)
    → All (λ b. b < 256) r
    → (decode_time_format r ≡ some v) ↔ (IsStorable v × (r ≡ encode_time_format v))
unfolding decode_time_format
decode_time_format_iff r v h = (
  λ e. ground (
    arith,
    list_eq→eq (encode_time_format v) r,
    get_or-lt r 4 h,
    get_or-lt r 5 h,
    get_or-lt r 6 h,
    get_or-lt r 7 h,
  ),
  λ (ok, e). rw e (decode_time_format-encode_time_format v ok),
)
