-- ===== src/SpeakerName/Record/RoundTrip.antt =====
-- `decode_speaker_name` undoes `encode_speaker_name`.
use openathan.Base.{
  ℕ, ◌≤◌, ◌<◌, ◌≡◌, refl, sym, ap, ◌∙◌, Bool, true, false, not, ◌||◌, Option, none, some, List,
  ◌++◌, length, get_or, take, drop, list_eq_self, list_eq→eq, ltb, ◌==◌, ==_iff, guards_passed,
  arith, length-pad, take-pad, take-append, drop-append, length-append, subst,
}
use openathan.Bytes.{bytes_of, read_bytes, read_u32, crc32, crc32-lt, u32_mod, word_bytes}
use openathan.SpeakerName.{SavedSpeakerName, normalize_speaker_name}
use openathan.SpeakerName.Text.{length-normalize_speaker_name}
use openathan.SpeakerName.Service.{IsStorable, is_normal}
use openathan.SpeakerName.Record.{
  name_body, encode_speaker_name, get_name, name_bytes_refused, name_refused, decode_speaker_name,
}

module _ (v : SavedSpeakerName) (short : length v.name ≤ 128) where
  length-name_body : length (name_body v) ≡ 140
  unfolding name_body
  length-name_body = omega (arith, length-pad {0} 128 0 v.name)

  encode_short : encode_speaker_name v ≡ name_body v ++ bytes_of 4 (crc32 (name_body v))
  unfolding encode_speaker_name
  encode_short = ground (arith, short)

  checksum_read :
      read_bytes 4 (drop 140 (encode_speaker_name v)) 0 ≡ crc32 (take 140 (encode_speaker_name v))
  checksum_read =
      ap (λ (r : List ℕ). read_bytes 4 (drop 140 r) 0) encode_short
      ∙ ap (λ (r : List ℕ). read_bytes 4 r 0) (drop-append 140 (name_body v) _ length-name_body)
      ∙ word_bytes (crc32 (name_body v)) (crc32-lt (name_body v))
      ∙ ap crc32 (sym (take-append 140 (name_body v) _ length-name_body))
      ∙ ap (λ (r : List ℕ). crc32 (take 140 r)) (sym encode_short)

  length_read : get_or (encode_speaker_name v) 8 0 ≡ length v.name
  unfolding name_body
  length_read = ap (λ (r : List ℕ). get_or r 8 0) encode_short ∙ omega (arith, short)

  revision_read : v.revision < u32_mod → read_u32 (encode_speaker_name v) 4 ≡ v.revision
  unfolding name_body
  revision_read small = ap (λ (r : List ℕ). read_u32 r 4) encode_short ∙ word_bytes v.revision small

  name_read : take (get_or (encode_speaker_name v) 8 0) (drop 12 (encode_speaker_name v)) ≡ v.name
  unfolding name_body
  name_read =
      ap (λ (n : ℕ). take n (drop 12 (encode_speaker_name v))) length_read
      ∙ ap (λ (r : List ℕ). take (length v.name) (drop 12 r)) encode_short
      ∙ take-pad 128 0 v.name _ short

  get_name-encode_speaker_name : v.revision < u32_mod → get_name (encode_speaker_name v) ≡ v
  unfolding get_name
  get_name-encode_speaker_name small = cc (revision_read small, name_read)

pub length-encode_speaker_name :
    (v : SavedSpeakerName) → length v.name ≤ 128 → length (encode_speaker_name v) ≡ 144
unfolding name_body
length-encode_speaker_name v short =
    ap (λ (r : List ℕ). length r) (encode_short v short)
    ∙ length-append (name_body v) (bytes_of 4 (crc32 (name_body v)))
    ∙ omega (arith, length-name_body v short)

not_refused : (a b c : Bool) → a ≡ true → b ≡ false → c ≡ false → (not a || b || c) ≡ false
not_refused a b c p q r = ground (arith, p)

name_bytes_kept :
    (v : SavedSpeakerName)
    → length v.name ≤ 128
    → 1 ≤ v.revision
    → v.revision < u32_mod
    → name_bytes_refused (encode_speaker_name v) ≡ false
unfolding name_bytes_refused
name_bytes_kept v short positive small =
    not_refused (read_bytes 4 (drop 140 (encode_speaker_name v)) 0 == _)
      (ltb 128 (get_or (encode_speaker_name v) 8 0)) (read_u32 (encode_speaker_name v) 4 == 0)
      ((==_iff _ _).1 (checksum_read v short)) (rw (length_read v short) (ground (arith, short)))
      (rw (revision_read v short small) (ground (arith, positive)))

name_kept :
    (v : SavedSpeakerName)
    → normalize_speaker_name v.name ≡ some v.name
    → name_refused v (encode_speaker_name v) ≡ false
unfolding name_refused
name_kept v normal = rw (normal, list_eq_self v.name, list_eq_self (encode_speaker_name v)) refl

-- A name with a revision from 1 below 2^32, whose text is normal, is read back from its record
-- unchanged.
pub decode_speaker_name-encode_speaker_name :
    (v : SavedSpeakerName) → IsStorable v → decode_speaker_name (encode_speaker_name v) ≡ some v
unfolding decode_speaker_name
decode_speaker_name-encode_speaker_name v ok =
    let short = length-normalize_speaker_name v.name v.name ok.2 in
    rw
      (
        name_bytes_kept v short ok.0 ok.1,
        get_name-encode_speaker_name v short ok.1,
        name_kept v ok.2,
      )
      refl

normal_same : (name : List ℕ) (o : Option (List ℕ)) → is_normal name o ≡ true → o ≡ some name
normal_same name none h = cc
normal_same name (some t) h = ap some (list_eq→eq t name h)

name_accepted :
    (w : SavedSpeakerName) (r : List ℕ)
    → name_refused w r ≡ false
    → (encode_speaker_name w ≡ r) × (normalize_speaker_name w.name ≡ some w.name)
unfolding name_refused
name_accepted w r h = ground (
  arith,
  list_eq→eq (encode_speaker_name w) r,
  normal_same w.name (normalize_speaker_name w.name),
)

-- A record that is accepted is the one of the name that is read from it, which is normal.
pub decode_speaker_name_canonical :
    (r : List ℕ) (w : SavedSpeakerName)
    → decode_speaker_name r ≡ some w
    → (encode_speaker_name w ≡ r) × (normalize_speaker_name w.name ≡ some w.name)
unfolding decode_speaker_name
decode_speaker_name_canonical r w h =
    let facts = guards_passed (name_bytes_refused r) (name_refused (get_name r) r) _ w h in
    subst
      (λ (x : SavedSpeakerName).
        (encode_speaker_name x ≡ r) × (normalize_speaker_name x.name ≡ some x.name))
      facts.2 (name_accepted (get_name r) r facts.1)
