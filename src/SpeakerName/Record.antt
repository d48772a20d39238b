-- ===== src/SpeakerName/Record.antt =====
-- `encode_speaker_name` and `decode_speaker_name`: the 144-byte record of the name.
pub mod RoundTrip
use openathan.Base.{
  ℕ, ◌%◌, ◌+◌, Bool, not, ◌||◌, Option, none, some, List, [], ◌∷◌, ◌++◌, length, get_or, take, drop,
  replicate, pad, list_eq, ltb, ◌==◌, if◌then◌else◌,
}
use openathan.Bytes.{bytes_of, read_bytes, read_u32, crc32}
use openathan.SpeakerName.{SavedSpeakerName, normalize_speaker_name}
use openathan.SpeakerName.Service.{is_normal}

-- All but the checksum, of a name that fits.
unfoldable pub name_body : SavedSpeakerName → List ℕ
name_body v =
    b'O'
    ∷ b'A'
    ∷ b'N'
    ∷ 1
    ∷ (bytes_of 4 v.revision ++ (length v.name % 256) ∷ 0 ∷ 0 ∷ 0 ∷ pad 128 0 v.name)

-- A name that does not fit gives an empty record.
unfoldable pub encode_speaker_name : SavedSpeakerName → List ℕ
encode_speaker_name v =
    if ltb 128 (length v.name)
    then replicate 144 0
    else name_body v ++ bytes_of 4 (crc32 (name_body v))

unfoldable pub get_name : List ℕ → SavedSpeakerName
get_name r = record { revision = read_u32 r 4; name = take (get_or r 8 0) (drop 12 r) }

-- The first test, and the second.
unfoldable pub name_bytes_refused : List ℕ → Bool
name_bytes_refused r =
    not (read_bytes 4 (drop 140 r) 0 == crc32 (take 140 r))
    || ltb 128 (get_or r 8 0)
    || read_u32 r 4 == 0

unfoldable pub name_refused : SavedSpeakerName → List ℕ → Bool
name_refused candidate r =
    not (is_normal candidate.name (normalize_speaker_name candidate.name))
    || not (list_eq (encode_speaker_name candidate) r)

unfoldable pub decode_speaker_name : List ℕ → Option SavedSpeakerName
decode_speaker_name r =
    if name_bytes_refused r
    then none
    else if name_refused (get_name r) r
    then none
    else some (get_name r)
