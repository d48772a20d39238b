-- ===== src/AudioImage/Layout.antt =====
-- What an accepted audio image is like.
use openathan.Base.{
  ℕ, ◌+◌, ◌*◌, ◌%◌, ◌≤◌, ◌<◌, ◌≡◌, ◌≢◌, refl, sym, ap, subst, ◌∙◌, Bool, true, false, not, ◌||◌,
  ltb, if◌then◌else◌, Option, none, some, List, length, arith, take, All, get_or-lt,
}
use openathan.Bytes.{u32_mod, read_u32}
use openathan.AudioImage.{
  AudioTrack, AudioError, ok, header, metadata_hash, bounds, track_hash, AudioCatalog, no_catalog,
  HashMatches, slice, check_track, end_of, validate_audio_image, second_round, close_catalog,
  checked,
}

-- A track of an image: aligned, not empty, from `start` to at most `used`, with its digest.
pub record IsTrack (hash_matches : HashMatches) (image : List ℕ) (used entry start : ℕ)
    (t : AudioTrack) : Type 0 where
  pub aligned : t.offset % 16 ≡ 0
  pub after : start ≤ t.offset
  pub filled : 0 < t.length
  pub inside : t.offset + t.length ≤ used
  pub intact : hash_matches (slice image t.offset t.length) (slice image (entry + 16) 32) ≡ true

-- The two tracks follow the header, do not overlap, and end where the image does.
pub record IsImage (hash_matches : HashMatches) (image : List ℕ) (c : AudioCatalog) : Type 0 where
  pub fits : read_u32 image 8 ≤ length image
  pub metadata : hash_matches (take 112 image) (slice image 112 32) ≡ true
  pub first : IsTrack hash_matches image (read_u32 image 8) 16 4096 c.0
  pub second : IsTrack hash_matches image (read_u32 image 8) 64 (c.0.offset + c.0.length) c.1
  pub full : c.1.offset + c.1.length ≡ read_u32 image 8

read_u32-lt : (image : List ℕ) (i : ℕ) → All (λ b. b < 256) image → read_u32 image i < u32_mod
read_u32-lt image i h = omega (
  arith,
  get_or-lt image i h,
  get_or-lt image (i + 1) h,
  get_or-lt image (i + 1 + 1) h,
  get_or-lt image (i + 1 + 1 + 1) h,
)

check_track-IsTrack :
    (hash_matches : HashMatches) (image : List ℕ) (used i start : ℕ)
    → (check_track hash_matches image used i start).0 ≡ ok
    → IsTrack hash_matches image used
        (16 + i * 48)
        start
        (check_track hash_matches image used i start).1
unfolding check_track
check_track-IsTrack hash_matches image used i start h = record {
  aligned = ground arith;
  after = ground arith;
  filled = ground arith;
  inside = ground arith;
  intact = ground arith;
}

-- An accepted second track ends the image, and nothing wraps around in 32 bits.
close_catalog-ok :
    (used : ℕ) (first : AudioTrack) (r : AudioError × AudioTrack)
    → (close_catalog used first r).0 ≡ ok
    → (r.0 ≡ ok) × (end_of r.1 ≡ used) × ((close_catalog used first r).1 ≡ (first, r.1))
unfolding close_catalog
close_catalog-ok used first (ok, t) h = ground arith
close_catalog-ok used first (header, t) h = cc
close_catalog-ok used first (metadata_hash, t) h = cc
close_catalog-ok used first (bounds, t) h = cc
close_catalog-ok used first (track_hash, t) h = cc

second_round-ok :
    (hash_matches : HashMatches) (image : List ℕ) (used : ℕ) (r : AudioError × AudioTrack)
    → (second_round hash_matches image used r).0 ≡ ok
    → let second = check_track hash_matches image used 1 (end_of r.1) in
      (r.0 ≡ ok)
      × (second.0 ≡ ok)
      × (end_of second.1 ≡ used)
      × ((second_round hash_matches image used r).1 ≡ (r.1, second.1))
unfolding second_round
second_round-ok hash_matches image used (ok, t) h =
    let done = close_catalog-ok used t (check_track hash_matches image used 1 (end_of t)) h in
    (refl, done.0, done.1, done.2)
second_round-ok hash_matches image used (header, t) h = cc
second_round-ok hash_matches image used (metadata_hash, t) h = cc
second_round-ok hash_matches image used (bounds, t) h = cc
second_round-ok hash_matches image used (track_hash, t) h = cc

passed :
    (malformed intact outside : Bool) (r : AudioError × AudioCatalog)
    → let v : AudioError × AudioCatalog =
        if malformed
        then (header, no_catalog)
        else if not intact
        then (metadata_hash, no_catalog)
        else if outside
        then (bounds, no_catalog)
        else r in
      v.0 ≡ ok → (intact ≡ true) × (outside ≡ false) × (r.0 ≡ ok) × (v ≡ r)
passed true b c r h = cc
passed false false c r h = cc
passed false true true r h = cc
passed false true false r h = (refl, refl, h, refl)

checked-ok :
    (hash_matches : HashMatches) (image : List ℕ) (used version : ℕ) (r : AudioError × AudioCatalog)
    → (checked hash_matches image used version r).0 ≡ ok
    → (used ≤ length image)
      × (hash_matches (take 112 image) (slice image 112 32) ≡ true)
      × (r.0 ≡ ok)
      × (checked hash_matches image used version r ≡ r)
unfolding checked
checked-ok hash_matches image used version r h =
    let facts = passed _ _ (ltb (length image) used || ltb used 4096) r h in
    (ground (arith, facts.1), facts.0, facts.2, facts.3)

-- The end of a track does not wrap around.
end_of-exact :
    (hash_matches : HashMatches) (image : List ℕ) (used entry start : ℕ) (t : AudioTrack)
    → used < u32_mod
    → IsTrack hash_matches image used entry start t
    → end_of t ≡ t.offset + t.length
end_of-exact hash_matches image used entry start t small h = omega (arith, h.inside)

-- An image of bytes that the validation accepts has two aligned, nonempty tracks with matching
-- digests; the first lies behind the header, the second behind the first, and the second ends where
-- the image says that it ends, which is inside the given bytes.
pub validate_audio_image-IsImage :
    (hash_matches : HashMatches) (image : List ℕ)
    → All (λ b. b < 256) image
    → (validate_audio_image hash_matches (some image)).0 ≡ ok
    → IsImage hash_matches image (validate_audio_image hash_matches (some image)).1
unfolding validate_audio_image
validate_audio_image-IsImage hash_matches image bytes h =
    let used = read_u32 image 8 in
    let small = read_u32-lt image 8 bytes in
    let facts = checked-ok hash_matches image _ _ _ h in
    let rounds =
      second_round-ok hash_matches image used (check_track hash_matches image used 0 4096)
        facts.2 in
    let first = check_track-IsTrack hash_matches image used 0 4096 rounds.0 in
    let head = (check_track hash_matches image used 0 4096).1 in
    let between = end_of-exact hash_matches image used 16 4096 _ small first in
    let second = check_track-IsTrack hash_matches image used 1 _ rounds.1 in
    let ending = end_of-exact hash_matches image used 64 _ _ small second in
    subst (λ c. IsImage hash_matches image c) (sym (ap (λ r. r.1) facts.3 ∙ rounds.3))
      (record {
        fits = facts.0;
        metadata = facts.1;
        first = first;
        second =
            subst
              (λ n.
                IsTrack hash_matches image used 64 n
                  (check_track hash_matches image used 1 (end_of head)).1)
              between second;
        full = sym ending ∙ rounds.2;
      })

close_catalog_error :
    (used : ℕ) (first : AudioTrack) (r : AudioError × AudioTrack)
    → (close_catalog used first r).0 ≢ ok
    → (close_catalog used first r).1 ≡ no_catalog
unfolding close_catalog
close_catalog_error used first (ok, t) h = ground arith
close_catalog_error used first (header, t) h = refl
close_catalog_error used first (metadata_hash, t) h = refl
close_catalog_error used first (bounds, t) h = refl
close_catalog_error used first (track_hash, t) h = refl

second_round_error :
    (hash_matches : HashMatches) (image : List ℕ) (used : ℕ) (r : AudioError × AudioTrack)
    → (second_round hash_matches image used r).0 ≢ ok
    → (second_round hash_matches image used r).1 ≡ no_catalog
unfolding second_round
second_round_error hash_matches image used (ok, t) h = close_catalog_error used t _ h
second_round_error hash_matches image used (header, t) h = refl
second_round_error hash_matches image used (metadata_hash, t) h = refl
second_round_error hash_matches image used (bounds, t) h = refl
second_round_error hash_matches image used (track_hash, t) h = refl

checked_error :
    (hash_matches : HashMatches) (image : List ℕ) (used version : ℕ) (r : AudioError × AudioCatalog)
    → (r.0 ≢ ok → r.1 ≡ no_catalog)
    → (checked hash_matches image used version r).0 ≢ ok
    → (checked hash_matches image used version r).1 ≡ no_catalog
unfolding checked
checked_error hash_matches image used version r kept h = ground arith

-- With any error the catalog is left empty.
pub validate_audio_image_error :
    (hash_matches : HashMatches) (image : Option (List ℕ))
    → (validate_audio_image hash_matches image).0 ≢ ok
    → (validate_audio_image hash_matches image).1 ≡ no_catalog
unfolding validate_audio_image
validate_audio_image_error hash_matches none h = refl
validate_audio_image_error hash_matches (some image) h =
    checked_error hash_matches image _ _ _
      (second_round_error hash_matches image (read_u32 image 8)
        (check_track hash_matches image (read_u32 image 8) 0 4096))
      h
