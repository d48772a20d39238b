-- ===== src/Device/Credentials/Kept.antt =====
-- What `save_wifi` writes, `load_wifi` reads.
use mathlib.Core.List.{append_assoc}
use openathan.Base.{
  ℕ, zero, suc, ◌+◌, ◌%◌, ◌≤◌, ◌≡◌, refl, sym, ap, ◌∙◌, true, false, some, List, [], ◌∷◌, ◌++◌,
  length, take, drop, pad, list_eq, ◌==◌, length-append, length-pad, take-append, drop-append,
  take-pad, ==_iff, arith,
}
use openathan.Bytes.{bytes_of, read_bytes, crc32, crc32-lt, word_bytes}
use openathan.Storage.{LoadResult}
use openathan.Nvs.{Nvs, Commits, found, put_blob, wifi}
use openathan.Device.Wifi.{WifiCredentials, valid_wifi, all}
use openathan.Device.Credentials.{
  CredentialStore, wifi_body, get_wifi, wifi_refused, padding_refused, decode_wifi, is_zero,
  open_store, read, write, load_wifi, save_wifi,
}

valid_wifi_sizes :
    (ssid password : List ℕ)
    → valid_wifi ssid password ≡ true
    → (length ssid ≤ 32) × (length password ≤ 64)
unfolding valid_wifi
valid_wifi_sizes ssid password h = ground arith

zero_padding :
    (n : ℕ) (xs : List ℕ) → length xs ≤ n → all is_zero (drop (length xs) (pad n 0 xs)) ≡ true
zero_padding zero [] h = refl
zero_padding (suc n) [] h = zero_padding n [] (omega arith)
zero_padding zero (x ∷ xs) h = absurd (omega arith)
zero_padding (suc n) (x ∷ xs) h = zero_padding n xs (omega arith)

small : (n : ℕ) → n ≤ 64 → n % 256 ≡ n
small n h = omega arith

six_more : (n : ℕ) → 6 + n ≡ suc (suc (suc (suc (suc (suc n)))))
six_more n = omega arith

drop_more : (n k : ℕ) (xs ys : List ℕ) → length xs ≡ n → drop (n + k) (xs ++ ys) ≡ drop k ys
drop_more n k [] ys h = ap (λ (i : ℕ). drop i ys) (omega (arith, h))
drop_more n k (x ∷ xs) ys h =
    let one : n + k ≡ suc (length xs + k) = omega (arith, h) in
    rw one (drop_more (length xs) k xs ys refl)

thirty_eight : (n : ℕ) → 38 + n ≡ suc (suc (suc (suc (suc (suc (32 + n))))))
thirty_eight n = omega arith

module _ (v : WifiCredentials) (rest : List ℕ) (short : length v.ssid ≤ 32)
    (brief : length v.password ≤ 64) where
  abbrev first : List ℕ
  first = pad 32 0 v.ssid

  abbrev second : List ℕ
  second = pad 64 0 v.password

  abbrev six : List ℕ → List ℕ
  six xs = b'O' ∷ b'A' ∷ b'W' ∷ b'1' ∷ (length v.ssid % 256) ∷ (length v.password % 256) ∷ xs

  abbrev laid : List ℕ
  laid = six (first ++ (second ++ rest))

  ssid_size : length v.ssid % 256 ≡ length v.ssid
  ssid_size = small (length v.ssid) (omega (arith, short))

  password_size : length v.password % 256 ≡ length v.password
  password_size = small (length v.password) brief

  ssid_read : take (length v.ssid % 256) (drop 6 laid) ≡ v.ssid
  ssid_read =
      ap (λ (n : ℕ). take n (first ++ (second ++ rest))) ssid_size
      ∙ take-pad 32 0 v.ssid (second ++ rest) short

  password_read : take (length v.password % 256) (drop 38 laid) ≡ v.password
  password_read =
      ap (λ (n : ℕ). take n (drop 38 laid)) password_size
      ∙ ap (take (length v.password))
          (drop-append 32 first (second ++ rest) (length-pad 32 0 v.ssid))
      ∙ take-pad 64 0 v.password rest brief

  front : take 38 laid ≡ six first
  front = ap six (take-append 32 first (second ++ rest) (length-pad 32 0 v.ssid))

  both : length (first ++ second) ≡ 96
  both = omega (
    arith,
    length-append {0} first second,
    length-pad {0} 32 0 v.ssid,
    length-pad {0} 64 0 v.password,
  )

  body : take 102 laid ≡ six (first ++ second)
  body = ap six (
      ap (λ (xs : List ℕ). take 96 xs) (sym (append_assoc first second rest))
      ∙ take-append 96 (first ++ second) rest both)

  ssid_padding : all is_zero (drop (6 + length v.ssid % 256) (take 38 laid)) ≡ true
  ssid_padding =
      ap (λ (xs : List ℕ). all is_zero (drop (6 + length v.ssid % 256) xs)) front
      ∙ ap (λ (n : ℕ). all is_zero (drop (6 + n) (six first))) ssid_size
      ∙ ap (λ (n : ℕ). all is_zero (drop n (six first))) (six_more (length v.ssid))
      ∙ zero_padding 32 v.ssid short

  password_padding : all is_zero (drop (38 + length v.password % 256) (take 102 laid)) ≡ true
  password_padding =
      ap (λ (xs : List ℕ). all is_zero (drop (38 + length v.password % 256) xs)) body
      ∙ ap (λ (n : ℕ). all is_zero (drop (38 + n) (six (first ++ second)))) password_size
      ∙ ap (λ (n : ℕ). all is_zero (drop n (six (first ++ second))))
          (thirty_eight (length v.password))
      ∙ ap (all is_zero) (drop_more 32 (length v.password) first second (length-pad 32 0 v.ssid))
      ∙ zero_padding 64 v.password brief

  get_wifi-laid : get_wifi laid ≡ v
  unfolding get_wifi
  get_wifi-laid = cc (ssid_read, password_read)

  wifi_refused-laid : wifi_refused laid ≡ false
  unfolding wifi_refused list_eq
  wifi_refused-laid = ground (arith, ssid_size, password_size, short, brief)

  padding_refused-laid : padding_refused laid ≡ false
  unfolding padding_refused
  padding_refused-laid = rw (ssid_padding, password_padding) refl

  decode_wifi-laid : valid_wifi v.ssid v.password ≡ true → decode_wifi laid ≡ some v
  unfolding decode_wifi
  decode_wifi-laid ok = rw (wifi_refused-laid, get_wifi-laid, ok, padding_refused-laid) refl

abbrev check : WifiCredentials → List ℕ
check v = bytes_of 4 (crc32 (wifi_body v))

abbrev stored : WifiCredentials → List ℕ
stored v = wifi_body v ++ check v

module _ (v : WifiCredentials) (ok : valid_wifi v.ssid v.password ≡ true) where
  abbrev sizes : (length v.ssid ≤ 32) × (length v.password ≤ 64)
  sizes = valid_wifi_sizes v.ssid v.password ok

  stored_laid : stored v ≡ laid v (check v) sizes.0 sizes.1
  unfolding wifi_body
  stored_laid =
      ap (six v (check v) sizes.0 sizes.1)
        (append_assoc (pad 32 0 v.ssid) (pad 64 0 v.password) (check v))

  length-wifi_body : length (wifi_body v) ≡ 102
  unfolding wifi_body
  length-wifi_body = omega (arith, both v (check v) sizes.0 sizes.1)

  length-stored : length (stored v) ≡ 106
  length-stored = omega (arith, length-append (wifi_body v) (check v), length-wifi_body)

  checksum_stored : read_bytes 4 (drop 102 (stored v)) 0 ≡ crc32 (take 102 (stored v))
  checksum_stored =
      ap (λ (r : List ℕ). read_bytes 4 r 0)
        (drop-append 102 (wifi_body v) (check v) length-wifi_body)
      ∙ word_bytes (crc32 (wifi_body v)) (crc32-lt (wifi_body v))
      ∙ ap crc32 (sym (take-append 102 (wifi_body v) (check v) length-wifi_body))

  decode_wifi-stored : decode_wifi (stored v) ≡ some v
  decode_wifi-stored = ap decode_wifi stored_laid ∙ decode_wifi-laid v (check v) sizes.0 sizes.1 ok

module _ {M : Type 0} (nvs : Nvs M) where
  abbrev working : CredentialStore
  working = record { opened = true; fault = false }

  load_wifi_found :
      (r : List ℕ) (v d : WifiCredentials) (m : M)
      → nvs.size_of wifi m ≡ found (length r)
      → nvs.get_blob wifi m ≡ some r
      → length r ≡ 106
      → (read_bytes 4 (drop 102 r) 0 == crc32 (take 102 r)) ≡ true
      → decode_wifi r ≡ some v
      → load_wifi nvs working d m ≡ (LoadResult.loaded, v, working)
  unfolding load_wifi read open_store
  load_wifi_found r v d m size blob fits sum decodes = rw (size, blob, fits, sum, decodes) refl

  save_wifi-true :
      (s : CredentialStore) (v : WifiCredentials) (m : M)
      → (save_wifi nvs s v m).0 ≡ true
      → let put = put_blob nvs wifi (stored v) m in
        (valid_wifi v.ssid v.password ≡ true)
        × (put.0 ≡ true)
        × ((save_wifi nvs s v m).1 ≡ working)
        × ((save_wifi nvs s v m).2 ≡ put.1)
  unfolding save_wifi write open_store
  save_wifi-true s v m h = ground (arith, h)

  -- Credentials that were saved are what the store then loads, if a committed blob is found again.
  pub load_wifi-save_wifi :
      (s : CredentialStore) (v d : WifiCredentials) (m : M)
      → Commits nvs
      → (save_wifi nvs s v m).0 ≡ true
      → load_wifi nvs (save_wifi nvs s v m).1 d (save_wifi nvs s v m).2
        ≡ (LoadResult.loaded, v, (save_wifi nvs s v m).1)
  load_wifi-save_wifi s v d m commits saved =
      let facts = save_wifi-true s v m saved in
      let kept = commits wifi (stored v) m facts.1 in
      rw (facts.2, facts.3)
        (load_wifi_found (stored v) v d (put_blob nvs wifi (stored v) m).1 kept.0 kept.1
          (length-stored v facts.0) ((==_iff _ _).1 (checksum_stored v facts.0))
          (decode_wifi-stored v facts.0))
