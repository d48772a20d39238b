-- ===== src/Device/Credentials.antt =====
-- firmware/esphome/components/openathan_device/credential_store.cpp: the credentials of the network
-- and the verifier of the administrator's password, over NVS.
pub mod Kept
use openathan.Base.{
  ℕ, ◌+◌, ◌-◌, ◌%◌, Bool, true, false, not, ◌&&◌, ◌||◌, Option, none, some, List, [], ◌∷◌, ◌++◌,
  length, take, drop, get_or, pad, leb, ltb, ◌==◌, list_eq, if◌then◌else◌,
}
use openathan.Bytes.{bytes_of, read_bytes, crc32}
use openathan.Storage.{LoadResult}
use openathan.Nvs.{Nvs, Key, Size, not_found, failed, found, put_blob, wifi, password}
use openathan.Device.Wifi.{WifiCredentials, valid_wifi, all}

pub record PasswordVerifier : Type 0 where
  pub revision : ℕ
  pub ha1 : List ℕ

-- `opened_` and `fault_`.
pub record CredentialStore : Type 0 where
  pub opened : Bool
  pub fault : Bool

-- The records in front of their checksum.
unfoldable pub wifi_body : WifiCredentials → List ℕ
wifi_body v =
    b'O'
    ∷ b'A'
    ∷ b'W'
    ∷ b'1'
    ∷ (length v.ssid % 256)
    ∷ (length v.password % 256)
    ∷ (pad 32 0 v.ssid ++ pad 64 0 v.password)

unfoldable pub password_body : PasswordVerifier → List ℕ
password_body v = b'O' ∷ b'A' ∷ b'P' ∷ b'1' ∷ (bytes_of 4 v.revision ++ pad 32 0 v.ha1)

abbrev is_zero : ℕ → Bool
is_zero b = b == 0

-- What `load_wifi` reads from a record whose checksum is right.
unfoldable pub get_wifi : List ℕ → WifiCredentials
get_wifi r = record {
  ssid = take (get_or r 4 0) (drop 6 r);
  password = take (get_or r 5 0) (drop 38 r);
}

unfoldable pub wifi_refused : List ℕ → Bool
wifi_refused r =
    not (list_eq (take 4 r) (b'O' ∷ b'A' ∷ b'W' ∷ b'1' ∷ []))
    || ltb 32 (get_or r 4 0)
    || ltb 64 (get_or r 5 0)

unfoldable pub padding_refused : List ℕ → Bool
padding_refused r =
    not (all is_zero (drop (6 + get_or r 4 0) (take 38 r)))
    || not (all is_zero (drop (38 + get_or r 5 0) (take 102 r)))

unfoldable pub decode_wifi : List ℕ → Option WifiCredentials
decode_wifi r =
    if wifi_refused r
    then none
    else if not (valid_wifi (get_wifi r).ssid (get_wifi r).password)
    then none
    else if padding_refused r
    then none
    else some (get_wifi r)

abbrev hex_lower : ℕ → Bool
hex_lower c = (leb b'0' c && leb c b'9') || (leb b'a' c && leb c b'f')

unfoldable pub decode_password : List ℕ → Option PasswordVerifier
decode_password r =
    let revision = read_bytes 4 r 4 in
    let digest = take 32 (drop 8 r) in
    if not (list_eq (take 4 r) (b'O' ∷ b'A' ∷ b'P' ∷ b'1' ∷ [])) || revision == 0
    then none
    else if not (all hex_lower digest)
    then none
    else some (record { revision = revision; ha1 = digest })

unfoldable pub valid_verifier : PasswordVerifier → Bool
valid_verifier v = not (v.revision == 0) && length v.ha1 == 32 && all hex_lower v.ha1

module _ {M : Type 0} (nvs : Nvs M) where
  unfoldable pub open_store : CredentialStore → Key → M → Bool × CredentialStore
  open_store s key m =
      if s.fault
      then (false, s)
      else if s.opened || nvs.opens key m
      then (true, record s { opened = true })
      else (false, record s { fault = true })

  abbrev sound : CredentialStore → ℕ → ℕ → Option (List ℕ) → LoadResult × List ℕ × CredentialStore
  sound s size n none = (LoadResult.error, [], record s { fault = true })
  sound s size n (some r) =
      if not (length r == size)
        || not (read_bytes 4 (drop (size - 4) r) 0 == crc32 (take (size - 4) r))
      then (LoadResult.error, [], s)
      else (LoadResult.loaded, r, s)

  abbrev sized :
      CredentialStore → ℕ → Size → Option (List ℕ) → LoadResult × List ℕ × CredentialStore
  sized s size not_found blob = (LoadResult.empty, [], s)
  sized s size failed blob = (LoadResult.error, [], record s { fault = true })
  sized s size (found n) blob =
      if not (n == size) then (LoadResult.error, [], s) else sound s size n blob

  -- `read_`, with the bytes that it leaves.
  unfoldable pub read : CredentialStore → Key → ℕ → M → LoadResult × List ℕ × CredentialStore
  unfolding open_store
  read s key size m =
      let ready = open_store s key m in
      if not ready.0
      then (LoadResult.error, [], ready.1)
      else sized ready.1 size (nvs.size_of key m) (nvs.get_blob key m)

  -- `write_` of a body, behind which it puts the checksum.
  unfoldable pub write : CredentialStore → Key → List ℕ → M → Bool × CredentialStore × M
  unfolding open_store put_blob
  write s key body m =
      let ready = open_store s key m in
      let put = put_blob nvs key (body ++ bytes_of 4 (crc32 body)) m in
      if not ready.0
      then (false, ready.1, m)
      else if not put.0
      then (false, record (ready.1) { fault = true }, put.1)
      else (true, ready.1, put.1)

  abbrev decoded {ℓ} : {A : Type ℓ} → A → Option A → LoadResult × A
  decoded d none = (LoadResult.error, d)
  decoded d (some v) = (LoadResult.loaded, v)

  abbrev read_value {ℓ} :
      {A : Type ℓ}
      → A
      → (List ℕ → Option A)
      → LoadResult × List ℕ × CredentialStore
      → LoadResult × A × CredentialStore
  read_value d decode (LoadResult.loaded, r, s) = let v = decoded d (decode r) in (v.0, v.1, s)
  read_value d decode (result, r, s) = (result, d, s)

  unfoldable pub load_wifi :
      CredentialStore → WifiCredentials → M → LoadResult × WifiCredentials × CredentialStore
  load_wifi s d m = read_value d decode_wifi (read s wifi 106 m)

  unfoldable pub save_wifi : CredentialStore → WifiCredentials → M → Bool × CredentialStore × M
  save_wifi s v m =
      let written = write s wifi (wifi_body v) m in
      if not (valid_wifi v.ssid v.password) then (false, s, m) else written

  unfoldable pub load_password :
      CredentialStore → PasswordVerifier → M → LoadResult × PasswordVerifier × CredentialStore
  load_password s d m = read_value d decode_password (read s password 44 m)

  unfoldable pub save_password : CredentialStore → PasswordVerifier → M → Bool × CredentialStore × M
  save_password s v m =
      let written = write s password (password_body v) m in
      if not (valid_verifier v) then (false, s, m) else written
