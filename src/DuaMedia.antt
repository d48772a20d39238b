-- ===== src/DuaMedia.antt =====
-- lib/openathan-core/include/openathan/dua_media.h: the two banks of flash that hold dua media. A
-- bank is its list of bytes, none for a null pointer; what compares a digest and what verifies the
-- envelope's signature are parameters.
pub mod Valid
use openathan.Base.{
  ℕ, ◌+◌, ◌-◌, ◌≤◌, ◌<◌, ◌≡◌, Bool, true, false, not, ◌&&◌, ◌||◌, Option, none, some, List, [], ◌∷◌,
  is_some, arith, take, drop, list_eq, ltb, ◌==◌, if◌then◌else◌, replicate, length,
}
use openathan.Bytes.{read_u32}
use openathan.AudioImage.{HashMatches, slice}

abbrev pub dua_bank_size : ℕ
dua_bank_size = 0x40000

abbrev dua_header_size : ℕ
dua_header_size = 4096

abbrev dua_max_bytes : ℕ
dua_max_bytes = dua_bank_size - dua_header_size

abbrev dua_envelope_max : ℕ
dua_envelope_max = 2048

abbrev pub dua_commit : ℕ
dua_commit = 0x314d4f43

-- The pointers are the bytes from where they point.
pub record DuaBank : Type 0 where
  pub index : ℕ
  pub generation : ℕ
  pub bytes : ℕ
  pub payload : List ℕ
  pub digest : List ℕ
  pub envelope : List ℕ
  pub envelope_size : ℕ

-- `verify`: the envelope's bytes from its start, its size, the length and the digest.
abbrev pub Verify : Type 0
Verify = List ℕ → ℕ → ℕ → List ℕ → Bool

dua_magic : List ℕ
dua_magic = b'O' ∷ b'A' ∷ b'D' ∷ b'U' ∷ b'A' ∷ b'0' ∷ b'0' ∷ b'1' ∷ []

unfoldable pub dua_bank_recognized : List ℕ → Bool
unfolding dua_magic
dua_bank_recognized bank = list_eq (take 8 bank) dua_magic

-- The loop over the first bytes, as many as the first argument says.
unfoldable pub all_erased : List ℕ → Bool
all_erased [] = true
all_erased (b ∷ bs) = b == 0xff && all_erased bs

unfoldable pub dua_bank_erased : List ℕ → Bool
unfolding all_erased
dua_bank_erased bank = all_erased (take dua_bank_size bank)

-- The first test, and the second, as functions of the words read.
unfoldable pub header_refused : HashMatches → List ℕ → ℕ → ℕ → ℕ → ℕ → Bool
unfolding dua_bank_recognized
header_refused hash bank index commit version generation =
    ltb 1 index
    || not (dua_bank_recognized bank)
    || not (commit == dua_commit)
    || not (version == 1)
    || generation == 0
    || not (hash (take 4060 bank) (slice bank 4060 32))

unfoldable pub body_refused : HashMatches → Verify → List ℕ → List ℕ → ℕ → ℕ → Bool
body_refused hash verify bank digest length envelope_size =
    length == 0
    || ltb dua_max_bytes length
    || envelope_size == 0
    || ltb dua_envelope_max envelope_size
    || not (verify (drop 64 bank) envelope_size length digest)
    || not (hash (slice bank dua_header_size length) digest)

unfoldable pub validate_dua_bank : HashMatches → Verify → Option (List ℕ) → ℕ → Option DuaBank
unfolding header_refused body_refused
validate_dua_bank hash verify none index = none
validate_dua_bank hash verify (some bank) index =
    let length = read_u32 bank 12 in
    let envelope_size = read_u32 bank 16 in
    let digest = slice bank 24 32 in
    if header_refused hash bank index (read_u32 bank 4092) (read_u32 bank 20) (read_u32 bank 8)
    then none
    else if body_refused hash verify bank digest length envelope_size
    then none
    else some (record {
      index = index;
      generation = read_u32 bank 8;
      bytes = length;
      payload = drop dua_header_size bank;
      digest = digest;
      envelope = drop 64 bank;
      envelope_size = envelope_size;
    })

-- What a bank that is accepted promises of its description.
pub record IsBank (hash : HashMatches) (verify : Verify) (bank : List ℕ) (b : DuaBank)
    : Type 0 where
  pub generation_at : b.generation ≡ read_u32 bank 8
  pub bytes_at : b.bytes ≡ read_u32 bank 12
  pub envelope_size_at : b.envelope_size ≡ read_u32 bank 16
  pub digest_at : b.digest ≡ slice bank 24 32
  pub envelope_at : b.envelope ≡ drop 64 bank
  pub payload_at : b.payload ≡ drop 4096 bank
  pub index_valid : b.index ≤ 1
  pub generation_set : 0 < b.generation
  pub payload_inside : 4096 + b.bytes ≤ dua_bank_size
  pub payload_filled : 0 < b.bytes
  pub envelope_inside : 64 + b.envelope_size ≤ 4060
  pub signed : verify b.envelope b.envelope_size b.bytes b.digest ≡ true
  pub intact : hash (take b.bytes b.payload) b.digest ≡ true
  pub header_intact : hash (take 4060 bank) (slice bank 4060 32) ≡ true
  pub versioned : read_u32 bank 20 ≡ 1
  pub committed : read_u32 bank 4092 ≡ dua_commit
