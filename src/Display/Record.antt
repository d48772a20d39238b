-- ===== src/Display/Record.antt =====
-- `encode_display` and `decode_display`: the sixteen-byte record. A record is a list of sixteen
-- bytes.
use openathan.Base.{
  ℕ, All, get_or-lt, ◌≤◌, ◌<◌, ◌≡◌, ◌↔◌, not, ◌||◌, Option, none, some, List, ◌∷◌, ltb, ◌==◌,
  if◌then◌else◌, get_or, set, take, replicate, list_eq, list_eq→eq, list_eq_self, arith,
}
use openathan.Bytes.{put_u32, read_u32, crc32, crc32-lt, u32_mod, word_bytes}
use openathan.Display.{SavedDisplay}

abbrev checksum : List ℕ → ℕ
checksum record_bytes = crc32 (take 12 record_bytes)

-- `DisplayRecord record{'O', 'A', 'D', 1}`.
abbrev blank : List ℕ
blank = b'O' ∷ b'A' ∷ b'D' ∷ 1 ∷ replicate 12 0

unfoldable pub encode_display : SavedDisplay → List ℕ
encode_display value =
    let body = set (put_u32 blank 4 value.revision) 8 value.brightness_percent in
    put_u32 body 12 (checksum body)

unfoldable pub decode_display : List ℕ → Option SavedDisplay
decode_display r =
    let candidate : SavedDisplay = record {
      revision = read_u32 r 4;
      brightness_percent = get_or r 8 0;
    } in
    if not (read_u32 r 12 == checksum r)
      || (ltb (get_or r 8 0) 1 || ltb 100 (get_or r 8 0))
      || read_u32 r 4 == 0
    then none
    else if not (list_eq (encode_display candidate) r)
    then none
    else some candidate

abbrev pub IsStorable : SavedDisplay → Type 0
IsStorable v =
    (1 ≤ v.revision)
    × (v.revision < u32_mod)
    × (1 ≤ v.brightness_percent)
    × (v.brightness_percent ≤ 100)

-- A storable value is read back from its record.
pub decode_display-encode_display :
    (v : SavedDisplay) → IsStorable v → decode_display (encode_display v) ≡ some v
unfolding decode_display encode_display
decode_display-encode_display v h = ground (
  arith,
  crc32-lt (take 12 (encode_display v)),
  list_eq_self (encode_display v),
  word_bytes v.revision,
)

-- Of a list of bytes the decoder accepts exactly the records of storable values (revision from 1
-- below 2^32, brightness from 1 to 100), and returns the value of which the list is the record.
pub decode_display_iff :
    (r : List ℕ) (v : SavedDisplay)
    → All (λ b. b < 256) r
    → (decode_display r ≡ some v) ↔ (IsStorable v × (r ≡ encode_display v))
unfolding decode_display
decode_display_iff r v h = (
  λ e. ground (
    arith,
    list_eq→eq (encode_display v) r,
    get_or-lt r 4 h,
    get_or-lt r 5 h,
    get_or-lt r 6 h,
    get_or-lt r 7 h,
  ),
  λ (ok, e). rw e (decode_display-encode_display v ok),
)
