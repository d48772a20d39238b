-- ===== src/Settings/Record/RoundTrip.antt =====
-- `decode_settings` undoes `encode_settings`.
use mathlib.Core.List.{append_assoc}
use openathan.Base.{
  ℕ, ◌%◌, ◌<◌, ◌≤◌, ◌≡◌, not, ◌||◌, ltb, ◌==◌, ==_iff, refl, sym, ap, subst, ◌∙◌, ℤ, Bool, true,
  false, some, List, [], ◌∷◌, ◌++◌, length, drop, take, pad, get_or, list_eq, list_eq_self, arith,
  length-pad, take-pad, drop-append, take-append, length-append,
}
use openathan.Bytes.{bytes_of, read_bytes, read_u32, crc32, crc32-lt, word_bytes}
use openathan.Settings.{SavedSettings}
use openathan.Settings.Record.{
  get_zone, put_zone, get_prayer, settings_body, encode_settings, get_settings, bytes_refused,
  settings_refused, decode_settings,
}
use openathan.Settings.Record.Fields.{
  IsRecordable, Fits, IsRecordable-Fits, with_offsets, with_prayer, get_zone-put_zone,
  get_prayer-put_place, get_settings_parts,
}

abbrev spelled : SavedSettings → ℤ → ℤ → ℤ → ℤ → ℤ → ℤ → SavedSettings
spelled v a b c d e f = with_prayer v (with_offsets v.value.prayer a b c d e f)

small_byte : (n : ℕ) → n < 256 → n % 256 ≡ n
small_byte n h = omega arith

none_refused :
    (a b c d e : Bool)
    → a ≡ true
    → b ≡ true
    → c ≡ false
    → d ≡ false
    → e ≡ false
    → (not a || not b || c || d || e) ≡ false
none_refused a b c d e p q r s t = ground (arith, p)

not_above : (n m : ℕ) → m ≤ n → ltb n m ≡ false
not_above n m h = ground arith

bytes_accepted :
    (r : List ℕ)
    → read_bytes 4 (drop 188 r) 0 ≡ crc32 (take 188 r)
    → list_eq (take 4 r) (b'O' ∷ b'A' ∷ b'C' ∷ b'1' ∷ []) ≡ true
    → get_or r 25 0 ≤ 1
    → get_or r 39 0 ≤ 31
    → get_or r 41 0 ≤ 96
    → bytes_refused r ≡ false
unfolding bytes_refused
bytes_accepted r crc magic hanafi enabled name =
    none_refused (read_bytes 4 (drop 188 r) 0 == crc32 (take 188 r)) (list_eq (take 4 r) _)
      (ltb 1 (get_or r 25 0)) (ltb 31 (get_or r 39 0)) (ltb 96 (get_or r 41 0)) ((==_iff _ _).1 crc)
      magic (not_above 1 _ hanafi) (not_above 31 _ enabled) (not_above 96 _ name)

decode_settings-some :
    (r : List ℕ) (v : SavedSettings)
    → bytes_refused r ≡ false
    → get_settings r ≡ v
    → settings_refused v r ≡ false
    → decode_settings r ≡ some v
unfolding decode_settings
decode_settings-some r v bytes read settings = rw (bytes, read, settings) refl

-- With the offsets written out, everything in front of the name has a place.
module _ (u : SavedSettings) (a b c d e f : ℤ) where
  abbrev v : SavedSettings
  v = spelled u a b c d e f

  length-settings_body : length (settings_body v) ≡ 188
  unfolding settings_body
  length-settings_body = omega (
    arith,
    length-append {0} (pad 96 0 u.value.timezone.name) (put_zone u.value.timezone),
    length-pad {0} 96 0 u.value.timezone.name,
  )

  behind_name : List ℕ
  behind_name = put_zone u.value.timezone ++ bytes_of 4 (crc32 (settings_body v))

  drop-encode_settings : drop 42 (encode_settings v) ≡ pad 96 0 u.value.timezone.name ++ behind_name
  unfolding encode_settings behind_name settings_body
  drop-encode_settings = append_assoc (pad 96 0 u.value.timezone.name) (put_zone u.value.timezone) _

  name_read :
      length u.value.timezone.name ≤ 96
      → take (length u.value.timezone.name % 256) (drop 42 (encode_settings v))
        ≡ u.value.timezone.name
  name_read h =
      ap (λ (n : ℕ). take n (drop 42 (encode_settings v))) (small_byte _ (omega arith))
      ∙ ap (take (length u.value.timezone.name)) drop-encode_settings
      ∙ take-pad 96 0 u.value.timezone.name behind_name h

  zone_read :
      Fits v
      → get_zone
          (take (length u.value.timezone.name % 256) (drop 42 (encode_settings v)))
          (drop 96 (drop 42 (encode_settings v)))
        ≡ u.value.timezone
  unfolding behind_name
  zone_read fits =
      ap (λ (name : List ℕ). get_zone name (drop 96 (drop 42 (encode_settings v))))
        (name_read fits.name_fits)
      ∙ ap (λ (rest : List ℕ). get_zone u.value.timezone.name rest)
          (ap (drop 96) drop-encode_settings
            ∙ drop-append 96 (pad 96 0 u.value.timezone.name) behind_name (length-pad 96 0 _))
      ∙ get_zone-put_zone u.value.timezone _ fits.standard_fits fits.daylight_fits fits.start_fits
          fits.end_fits

  place_read : Fits v → IsRecordable v → get_prayer (encode_settings v) ≡ v.value.prayer
  unfolding encode_settings settings_body
  place_read fits ok =
      get_prayer-put_place u.revision u.value.prayer a b c d e f _ ok.latitude_fits
        ok.longitude_fits fits.method_fits fits.rule_fits fits.offsets_fit

  revision_read : IsRecordable v → read_u32 (encode_settings v) 4 ≡ u.revision
  unfolding encode_settings settings_body
  revision_read ok = word_bytes u.revision ok.bounded

  volume_read : Fits v → get_or (encode_settings v) 40 0 ≡ u.value.volume
  unfolding encode_settings settings_body
  volume_read fits = small_byte u.value.volume fits.volume_fits

  length_read : get_or (encode_settings v) 41 0 ≡ length u.value.timezone.name % 256
  unfolding encode_settings settings_body
  length_read = refl

  get_settings-encode_settings : IsRecordable v → get_settings (encode_settings v) ≡ v
  get_settings-encode_settings ok =
      let fits = IsRecordable-Fits v ok in
      get_settings_parts (encode_settings v) v (revision_read ok) (place_read fits ok)
        (ap
            (λ (n : ℕ).
              get_zone (take n (drop 42 (encode_settings v)))
                (drop 96 (drop 42 (encode_settings v))))
            length_read
          ∙ zone_read fits)
        (volume_read fits)

  checksum_read : read_bytes 4 (drop 188 (encode_settings v)) 0 ≡ crc32 (settings_body v)
  unfolding encode_settings
  checksum_read =
      ap (λ (r : List ℕ). read_bytes 4 r 0)
        (drop-append 188 (settings_body v) _ length-settings_body)
      ∙ word_bytes (crc32 (settings_body v)) (crc32-lt (settings_body v))

  body_read : take 188 (encode_settings v) ≡ settings_body v
  unfolding encode_settings
  body_read = take-append 188 (settings_body v) _ length-settings_body

  magic_read : list_eq (take 4 (encode_settings v)) (b'O' ∷ b'A' ∷ b'C' ∷ b'1' ∷ []) ≡ true
  unfolding encode_settings settings_body list_eq
  magic_read = refl

  hanafi_read : get_or (encode_settings v) 25 0 ≤ 1
  unfolding encode_settings settings_body
  hanafi_read = ground arith

  enabled_read : get_or (encode_settings v) 39 0 ≤ 31
  unfolding encode_settings settings_body
  enabled_read = ground arith

  accepted_bytes : Fits v → bytes_refused (encode_settings v) ≡ false
  unfolding list_eq
  accepted_bytes fits =
      bytes_accepted (encode_settings v) (checksum_read ∙ ap crc32 (sym body_read)) magic_read
        hanafi_read enabled_read
        (omega (arith, length_read, fits.name_fits, small_byte (length u.value.timezone.name)))

  accepted_settings : IsRecordable v → settings_refused v (encode_settings v) ≡ false
  unfolding settings_refused
  accepted_settings ok = ground (arith, ok.positive, ok.valid, list_eq_self (encode_settings v))

  pub spelled_round_trip : IsRecordable v → decode_settings (encode_settings v) ≡ some v
  spelled_round_trip ok =
      decode_settings-some (encode_settings v) v (accepted_bytes (IsRecordable-Fits v ok))
        (get_settings-encode_settings ok) (accepted_settings ok)

-- With the offsets as they are.
offsets_spelled :
    (w : SavedSettings) (os : List ℤ)
    → w.value.prayer.offsets ≡ os
    → length os ≡ 6
    → IsRecordable w
    → decode_settings (encode_settings w) ≡ some w
offsets_spelled w (a ∷ b ∷ c ∷ d ∷ e ∷ f ∷ []) same h ok =
    let equal : spelled w a b c d e f ≡ w =
      ap (λ os. with_prayer w (record (w.value.prayer) { offsets = os })) (sym same) in
    subst (λ x. decode_settings (encode_settings x) ≡ some x) equal
      (spelled_round_trip w a b c d e f (subst IsRecordable (sym equal) ok))
offsets_spelled w [] same h ok = absurd (omega arith)
offsets_spelled w (a ∷ []) same h ok = absurd (omega arith)
offsets_spelled w (a ∷ b ∷ []) same h ok = absurd (omega arith)
offsets_spelled w (a ∷ b ∷ c ∷ []) same h ok = absurd (omega arith)
offsets_spelled w (a ∷ b ∷ c ∷ d ∷ []) same h ok = absurd (omega arith)
offsets_spelled w (a ∷ b ∷ c ∷ d ∷ e ∷ []) same h ok = absurd (omega arith)
offsets_spelled w (a ∷ b ∷ c ∷ d ∷ e ∷ f ∷ g ∷ os) same h ok = absurd (omega arith)

-- Settings with a revision from 1 below 2^32, whose fields are valid and of the source's types, are
-- read back from their record unchanged.
pub decode_settings-encode_settings :
    (w : SavedSettings) → IsRecordable w → decode_settings (encode_settings w) ≡ some w
decode_settings-encode_settings w ok =
    offsets_spelled w w.value.prayer.offsets refl ok.six_offsets ok
