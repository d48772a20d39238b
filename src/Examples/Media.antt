-- ===== src/Examples/Media.antt =====
-- An audio image of two tracks, a bank with a du'a, and a chunk of an upgrade.
use openathan.Base.{
  ℕ, zero, suc, ◌+◌, ◌/◌, ◌%◌, ◌<◌, ◌≡◌, refl, true, some, List, [], ◌∷◌, replicate, set, list_eq,
  take, drop, All, arith,
}
use openathan.Bytes.{put_bytes, put_u32}
use openathan.AudioImage.{validate_audio_image, HashMatches, slice}
use openathan.AudioImage.Layout.{IsImage, validate_audio_image-IsImage}
use openathan.DuaMedia.{
  DuaBank, IsBank, Verify, validate_dua_bank, dua_bank_erased, all_erased, dua_bank_size,
  dua_commit,
}
use openathan.DuaMedia.Valid.{validate_dua_bank-IsBank}
use openathan.UsbUpgrade.{Chunk}

abbrev any_hash : HashMatches
any_hash = λ bytes digest. true

abbrev IsBytes : List ℕ → Type 0
IsBytes r = All (λ b. b < 256) r

replicate-IsBytes : (n v : ℕ) → v < 256 → IsBytes (replicate n v)
replicate-IsBytes zero v h = _
replicate-IsBytes (suc n) v h = (h, replicate-IsBytes n v h)

set-IsBytes : (r : List ℕ) (i v : ℕ) → IsBytes r → v < 256 → IsBytes (set r i v)
set-IsBytes [] i v h small = _
set-IsBytes (x ∷ xs) zero v h small = (small, h.1)
set-IsBytes (x ∷ xs) (suc i) v h small = (h.0, set-IsBytes xs i v h.1 small)

put_bytes-IsBytes : (n : ℕ) (r : List ℕ) (i v : ℕ) → IsBytes r → IsBytes (put_bytes n r i v)
put_bytes-IsBytes zero r i v h = h
put_bytes-IsBytes (suc n) r i v h =
    put_bytes-IsBytes n (set r i (v % 256)) (i + 1) (v / 256)
      (set-IsBytes r i (v % 256) h (omega arith))

-- The words of a record, at their places.
abbrev put_words : List (ℕ × ℕ) → List ℕ → List ℕ
put_words [] r = r
put_words (w ∷ ws) r = put_words ws (put_u32 r w.0 w.1)

put_words-IsBytes : (ws : List (ℕ × ℕ)) (r : List ℕ) → IsBytes r → IsBytes (put_words ws r)
put_words-IsBytes [] r h = h
put_words-IsBytes (w ∷ ws) r h = put_words-IsBytes ws _ (put_bytes-IsBytes 4 r w.0 w.1 h)

-- "OAUD", "IO01", the used size and the version, and two tracks of sixteen bytes.
abbrev image_words : List (ℕ × ℕ)
image_words =
    (0, 0x4455414F)
    ∷ (4, 0x31304F49)
    ∷ (8, 4128)
    ∷ (12, 2)
    ∷ (16, 1)
    ∷ (20, 4096)
    ∷ (24, 16)
    ∷ (28, 1)
    ∷ (64, 2)
    ∷ (68, 4112)
    ∷ (72, 16)
    ∷ (76, 1)
    ∷ []

abbrev image : List ℕ
image = put_words image_words (replicate 4128 0)

validate_audio_image-IsImage_example :
    IsImage any_hash image (validate_audio_image any_hash (some image)).1
unfolding validate_audio_image list_eq
validate_audio_image-IsImage_example =
    validate_audio_image-IsImage any_hash image
      (put_words-IsBytes image_words (replicate 4128 0) (replicate-IsBytes 4128 0 (omega arith)))
      refl

abbrev any_signature : Verify
any_signature = λ envelope size length digest. true

-- "OADU", "A001", generation 7, ten bytes, an envelope of five, version 1, and the commit word.
abbrev bank : List ℕ
bank =
    put_words
      ((0, 0x5544414F)
        ∷ (4, 0x31303041)
        ∷ (8, 7)
        ∷ (12, 10)
        ∷ (16, 5)
        ∷ (20, 1)
        ∷ (4092, dua_commit)
        ∷ [])
      (replicate 4106 0)

abbrev described : DuaBank
described = record {
  index = 1;
  generation = 7;
  bytes = 10;
  payload = drop 4096 bank;
  digest = slice bank 24 32;
  envelope = drop 64 bank;
  envelope_size = 5;
}

validate_dua_bank-IsBank_example : IsBank any_hash any_signature bank described
unfolding validate_dua_bank list_eq
validate_dua_bank-IsBank_example =
    validate_dua_bank-IsBank any_hash any_signature bank 1 described refl

all_erased-replicate : (n m : ℕ) → all_erased (take n (replicate m 0xff)) ≡ true
unfolding all_erased
all_erased-replicate zero m = refl
all_erased-replicate (suc n) zero = refl
all_erased-replicate (suc n) (suc m) = all_erased-replicate n m

erased_flash : (n : ℕ) → dua_bank_erased (replicate n 0xff) ≡ true
unfolding dua_bank_erased
erased_flash n = all_erased-replicate dua_bank_size n

-- A first chunk of three bytes, and the next one.
abbrev chunk : Chunk
chunk = record { token = 77; kind = 1; offset = 0; bytes = 1 ∷ 2 ∷ 3 ∷ [] }
