-- ===== src/AudioImage.antt =====
-- lib/openathan-core/include/openathan/audio_image.h: the catalog of the audio partition. The image
-- is a list of bytes, and none stands for a null pointer; what compares a digest is a parameter.
pub mod Layout
use openathan.Base.{
  ℕ, zero, suc, ◌+◌, ◌-◌, ◌*◌, ◌%◌, Bool, not, ◌||◌, Option, none, some, List, [], ◌∷◌, length,
  take, drop, list_eq, ltb, ◌==◌, if◌then◌else◌,
}
use openathan.Bytes.{u32_mod, read_u32}

pub record AudioTrack : Type 0 where
  pub offset : ℕ
  pub length : ℕ

pub data AudioError : Type 0 where
  ok header metadata_hash bounds track_hash : AudioError

abbrev pub audio_header_size : ℕ
audio_header_size = 4096

abbrev audio_metadata_size : ℕ
audio_metadata_size = 112

-- `AudioCatalog`, the two tracks in order; `AudioCatalog{}`.
abbrev pub AudioCatalog : Type 0
AudioCatalog = AudioTrack × AudioTrack

abbrev pub no_track : AudioTrack
no_track = record { offset = 0; length = 0 }

abbrev pub no_catalog : AudioCatalog
no_catalog = (no_track, no_track)

-- `hash_matches`: some bytes and the thirty-two of a digest.
abbrev pub HashMatches : Type 0
HashMatches = List ℕ → List ℕ → Bool

abbrev pub slice : List ℕ → ℕ → ℕ → List ℕ
slice image at n = take n (drop at image)

magic : List ℕ
magic = b'O' ∷ b'A' ∷ b'U' ∷ b'D' ∷ b'I' ∷ b'O' ∷ b'0' ∷ b'1' ∷ []

-- The body of the loop for the `i`-th entry, where the previous track ends at `end`: an error, or
-- the track.
unfoldable pub check_track : HashMatches → List ℕ → ℕ → ℕ → ℕ → AudioError × AudioTrack
check_track hash_matches image used i end =
    let entry = 16 + i * 48 in
    let offset = read_u32 image (entry + 4) in
    let length = read_u32 image (entry + 8) in
    if not (read_u32 image entry == i + 1)
      || not (read_u32 image (entry + 12) == 1)
      || not (offset % 16 == 0)
      || ltb offset end
      || ltb used offset
      || length == 0
      || ltb (used - offset) length
    then (bounds, no_track)
    else if not (hash_matches (slice image offset length) (slice image (entry + 16) 32))
    then (track_hash, no_track)
    else (ok, record { offset = offset; length = length })

-- `end = offset + length` on 32 bits.
abbrev pub end_of : AudioTrack → ℕ
end_of t = (t.offset + t.length) % u32_mod

-- The part after the loop's first round, and after its second.
close_catalog : ℕ → AudioTrack → AudioError × AudioTrack → AudioError × AudioCatalog
close_catalog used first (ok, second) =
    if end_of second == used then (ok, (first, second)) else (bounds, no_catalog)
close_catalog used first (e, second) = (e, no_catalog)

second_round : HashMatches → List ℕ → ℕ → AudioError × AudioTrack → AudioError × AudioCatalog
unfolding close_catalog check_track
second_round hash_matches image used (ok, first) =
    close_catalog used first (check_track hash_matches image used 1 (end_of first))
second_round hash_matches image used (e, first) = (e, no_catalog)

-- What the tests before the loop make of the loop's result, by the used size and the version.
unfoldable pub checked :
    HashMatches → List ℕ → ℕ → ℕ → AudioError × AudioCatalog → AudioError × AudioCatalog
unfolding magic
checked hash_matches image used version tracks =
    if ltb (length image) audio_header_size
      || not (list_eq (take 8 image) magic)
      || not (version == 2)
    then (header, no_catalog)
    else if not (hash_matches (take audio_metadata_size image) (slice image audio_metadata_size 32))
    then (metadata_hash, no_catalog)
    else if ltb (length image) used || ltb used audio_header_size
    then (bounds, no_catalog)
    else tracks

unfoldable pub validate_audio_image : HashMatches → Option (List ℕ) → AudioError × AudioCatalog
unfolding second_round check_track checked
validate_audio_image hash_matches none = (header, no_catalog)
validate_audio_image hash_matches (some image) =
    let used = read_u32 image 8 in
    checked hash_matches image used (read_u32 image 12) (
      second_round hash_matches image used
        (check_track hash_matches image used 0 audio_header_size))
