-- ===== src/Lights/Record.antt =====
-- `encode_lights` and `decode_lights`: the sixteen-byte record. A record is a list of sixteen
-- bytes.
use openathan.Base.{
  Bool, true, false, ℕ, All, get_or-lt, ◌≤◌, ◌<◌, ◌≡◌, ◌↔◌, not, ◌||◌, Option, none, some, List,
  ◌∷◌, ltb, ◌==◌, if◌then◌else◌, get_or, set, take, replicate, list_eq, list_eq→eq, list_eq_self,
  arith,
}
use openathan.Bytes.{put_u32, read_u32, crc32, crc32-lt, u32_mod, word_bytes}
use openathan.Lights.{SavedLights}

-- `bool` as a byte.
abbrev pub byte_of : Bool → ℕ
byte_of true = 1
byte_of false = 0

abbrev checksum : List ℕ → ℕ
checksum record_bytes = crc32 (take 12 record_bytes)

-- `LightRecord record{'O', 'A', 'L', 1}`.
abbrev blank : List ℕ
blank = b'O' ∷ b'A' ∷ b'L' ∷ 1 ∷ replicate 12 0

unfoldable pub encode_lights : SavedLights → List ℕ
encode_lights value =
    let body =
      set (set (put_u32 blank 4 value.revision) 8 (byte_of value.value.enabled)) 9
        value.value.brightness_percent in
    put_u32 body 12 (checksum body)

unfoldable pub decode_lights : List ℕ → Option SavedLights
decode_lights r =
    let candidate : SavedLights = record {
      revision = read_u32 r 4;
      value = record { enabled = get_or r 8 0 == 1; brightness_percent = get_or r 9 0 };
    } in
    if not (read_u32 r 12 == checksum r)
      || ltb 1 (get_or r 8 0)
      || ltb 100 (get_or r 9 0)
      || read_u32 r 4 == 0
    then none
    else if not (list_eq (encode_lights candidate) r)
    then none
    else some candidate

abbrev pub IsStorable : SavedLights → Type 0
IsStorable v = (1 ≤ v.revision) × (v.revision < u32_mod) × (v.value.brightness_percent ≤ 100)

-- A storable value is read back from its record.
pub decode_lights-encode_lights :
    (v : SavedLights) → IsStorable v → decode_lights (encode_lights v) ≡ some v
unfolding decode_lights encode_lights
decode_lights-encode_lights v h = ground (
  arith,
  crc32-lt (take 12 (encode_lights v)),
  list_eq_self (encode_lights v),
  word_bytes v.revision,
)

-- Of a list of bytes the decoder accepts exactly the records of storable values (revision from 1
-- below 2^32, brightness at most 100), and returns the value of which the list is the record.
pub decode_lights_iff :
    (r : List ℕ) (v : SavedLights)
    → All (λ b. b < 256) r
    → (decode_lights r ≡ some v) ↔ (IsStorable v × (r ≡ encode_lights v))
unfolding decode_lights
decode_lights_iff r v h = (
  λ e. ground (
    arith,
    list_eq→eq (encode_lights v) r,
    get_or-lt r 4 h,
    get_or-lt r 5 h,
    get_or-lt r 6 h,
    get_or-lt r 7 h,
  ),
  λ (ok, e). rw e (decode_lights-encode_lights v ok),
)
