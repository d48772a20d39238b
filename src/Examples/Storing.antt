-- ===== src/Examples/Storing.antt =====
-- The stores over a flash that keeps one blob for each key.
use openathan.Base.{
  replicate, ℕ, ◌≡◌, refl, true, false, Option, none, some, List, [], ◌∷◌, length, ◌==◌,
  if◌then◌else◌, arith,
}
use openathan.Storage.{LoadResult}
use openathan.Nvs.{
  Key, Size, not_found, found, Nvs, Commits, scheduler, settings, lights, time_format, dua,
  speaker_name, display, setup, wifi, password, volume, put_blob, save,
}
use openathan.Nvs.Stores.{nvs_state_store}
use openathan.Nvs.Services.{nvs_state_store_keeps}
use openathan.Nvs.Setup.{
  SetupStore, new_setup, begin, activate, write, results_refused, setup_begin-activate,
}
use openathan.Lights
use openathan.Device.Wifi.{WifiCredentials, no_credentials, valid_wifi}
use openathan.Device.Credentials
use openathan.Device.Credentials.{CredentialStore, load_wifi, save_wifi, open_store}
use openathan.Device.Credentials.Kept.{load_wifi-save_wifi}
use openathan.Scheduler.{initial_state}
use openathan.Examples.Configuring.{skipping, skipping-IsStorable}

abbrev number_of : Key → ℕ
number_of scheduler = 0
number_of settings = 1
number_of lights = 2
number_of time_format = 3
number_of dua = 4
number_of speaker_name = 5
number_of display = 6
number_of setup = 7
number_of wifi = 8
number_of password = 9
number_of volume = 10

abbrev Blobs : Type 0
Blobs = Key → Option (List ℕ)

abbrev size_of : Option (List ℕ) → Size
size_of none = not_found
size_of (some r) = found (length r)

abbrev flash : Nvs Blobs
flash = record {
  opens = λ k m. true;
  size_of = λ k m. size_of (m k);
  get_blob = λ k m. m k;
  set_blob = λ k r m. (true, λ x. if number_of x == number_of k then some r else m x);
  commit = λ k m. (true, m);
}

abbrev blank : Blobs
blank = λ k. none

same : (n : ℕ) → (n == n) ≡ true
same n = ground arith

flash-Commits : Commits flash
unfolding put_blob
flash-Commits key r m ok = (rw (same (number_of key)) refl, rw (same (number_of key)) refl)

saved_once : ((nvs_state_store flash).save skipping blank).0 ≡ true
unfolding save put_blob
saved_once = refl

nvs_state_store_keeps_example :
    (nvs_state_store flash).load initial_state ((nvs_state_store flash).save skipping blank).1
    ≡ (LoadResult.loaded, skipping)
nvs_state_store_keeps_example =
    nvs_state_store_keeps flash skipping initial_state blank flash-Commits skipping-IsStorable
      saved_once

abbrev setup_done : SetupStore
setup_done = record { healthy = true; active = true; opened = true }

abbrev pending : SetupStore
pending = record { healthy = true; active = false; opened = true }

setup_begin-activate_example :
    begin flash new_setup LoadResult.loaded LoadResult.empty (activate flash pending blank).2
    ≡ (true, setup_done, (activate flash pending blank).2)
unfolding activate write put_blob results_refused
setup_begin-activate_example =
    setup_begin-activate flash pending blank LoadResult.empty flash-Commits refl refl refl refl refl

-- A name of two characters, and one change of it with a stale revision.
abbrev neat : List ℕ
neat = 72 ∷ 0xC3 ∷ 0xA9 ∷ []

abbrev dim : Lights.LightSettings
dim = record { enabled = false; brightness_percent = 5 }

abbrev home : WifiCredentials
home = record { ssid = b'o' ∷ b'a' ∷ []; password = replicate 8 b'p' }

abbrev unopened_store : CredentialStore
unopened_store = record { opened = false; fault = false }

home_saved : (save_wifi flash unopened_store home blank).0 ≡ true
unfolding save_wifi Credentials.write open_store valid_wifi put_blob
home_saved = refl

load_wifi-save_wifi_example :
    load_wifi flash
      (save_wifi flash unopened_store home blank).1
      no_credentials
      (save_wifi flash unopened_store home blank).2
    ≡ (LoadResult.loaded, home, (save_wifi flash unopened_store home blank).1)
load_wifi-save_wifi_example =
    load_wifi-save_wifi flash unopened_store home no_credentials blank flash-Commits home_saved
