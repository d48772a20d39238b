-- ===== src/Nvs/Setup.antt =====
-- `SetupStore` of firmware/esphome/components/openathan/setup_store.cpp: whether the installation is
-- activated.
use openathan.Base.{
  ℕ, ◌≡◌, refl, ap, ◌∙◌, Bool, true, false, not, ◌&&◌, ◌||◌, Option, none, some, List, [], ◌∷◌,
  length, get_or, ltb, ◌==◌, if◌then◌else◌, arith, ◌-◌,
}
use openathan.Storage.{LoadResult}
use openathan.Nvs.{Nvs, Size, not_found, failed, found, put_blob, Commits, setup}

pub record SetupStore : Type 0 where
  pub healthy : Bool
  pub active : Bool
  pub opened : Bool

-- The query `active()`.
abbrev pub setup_active : SetupStore → Bool
setup_active s = s.healthy && s.active

abbrev pub new_setup : SetupStore
new_setup = record { healthy = false; active = false; opened = false }

-- The record: `~` of a byte is what is left of 255.
abbrev pub setup_record : Bool → List ℕ
setup_record active =
    let a = if active then 1 else 0 in b'O' ∷ b'A' ∷ b'S' ∷ 1 ∷ a ∷ (255 - a) ∷ 0 ∷ 0 ∷ []

abbrev is_error : LoadResult → Bool
is_error LoadResult.error = true
is_error _ = false

abbrev pub is_loaded : LoadResult → Bool
is_loaded LoadResult.loaded = true
is_loaded _ = false

abbrev is_empty : LoadResult → Bool
is_empty LoadResult.empty = true
is_empty _ = false

-- The first test of `begin`, and the one on the record.
unfoldable pub results_refused : LoadResult → LoadResult → Bool
results_refused settings history =
    is_error settings || is_error history || (is_empty settings && is_loaded history)

unfoldable pub record_refused : List ℕ → LoadResult → Bool
record_refused r settings =
    not (length r == 8)
    || not (get_or r 0 0 == b'O')
    || not (get_or r 1 0 == b'A')
    || not (get_or r 2 0 == b'S')
    || not (get_or r 3 0 == 1)
    || ltb 1 (get_or r 4 0)
    || not (get_or r 5 0 == 255 - get_or r 4 0)
    || not (get_or r 6 0 == 0)
    || not (get_or r 7 0 == 0)
    || (not (get_or r 4 0 == 0) && not (is_loaded settings))

module _ {M : Type 0} (nvs : Nvs M) where
  unfoldable pub write : SetupStore → Bool → M → Bool × SetupStore × M
  write s active m =
      let put = put_blob nvs setup (setup_record active) m in
      if not s.opened
      then (false, record s { healthy = false }, m)
      else if not put.0
      then (false, record s { healthy = false }, put.1)
      else (true, record s { active = active; healthy = true }, put.1)

  unfoldable pub activate : SetupStore → M → Bool × SetupStore × M
  activate s m =
      let written = write s true m in
      if not s.healthy then (false, s, m) else if s.active then (true, s, m) else written

  -- The answers of `nvs_get_blob` with a buffer of eight bytes.
  read_setup : SetupStore → LoadResult → Size → Option (List ℕ) → M → Bool × SetupStore × M
  read_setup s settings not_found blob m = write s (is_loaded settings) m
  read_setup s settings failed blob m = (false, s, m)
  read_setup s settings (found n) none m = (false, s, m)
  read_setup s settings (found n) (some r) m =
      if record_refused r settings
      then (false, s, m)
      else (true, record s { active = not (get_or r 4 0 == 0); healthy = true }, m)

  unfoldable pub begin : SetupStore → LoadResult → LoadResult → M → Bool × SetupStore × M
  unfolding read_setup
  begin s settings history m =
      let reset : SetupStore = record s { healthy = false; active = false } in
      let ready : SetupStore = record reset { opened = true } in
      let read = read_setup ready settings (nvs.size_of setup m) (nvs.get_blob setup m) m in
      if results_refused settings history
      then (false, reset, m)
      else if not (nvs.opens setup m)
      then (false, reset, m)
      else read

  active_write :
      (s : SetupStore) (b : Bool) (m : M)
      → s.active ≡ false
      → (write s b m).1.active ≡ true
      → b ≡ true
  unfolding write
  active_write s b m off on = ground arith

  active_read :
      (s : SetupStore) (settings : LoadResult) (size : Size) (blob : Option (List ℕ)) (m : M)
      → s.active ≡ false
      → (read_setup s settings size blob m).1.active ≡ true
      → is_loaded settings ≡ true
  unfolding read_setup record_refused
  active_read s settings not_found blob m off on = active_write s (is_loaded settings) m off on
  active_read s settings failed blob m off on = cc
  active_read s settings (found n) none m off on = cc
  active_read s settings (found n) (some r) m off on = ground arith

  is_loaded→eq : (r : LoadResult) → is_loaded r ≡ true → r ≡ LoadResult.loaded
  is_loaded→eq LoadResult.loaded h = refl
  is_loaded→eq LoadResult.empty h = cc
  is_loaded→eq LoadResult.error h = cc

  -- A start makes the installation active only if the settings were loaded, whatever the record is,
  -- and whether or not a record of the setup existed.
  pub setup_begin_active :
      (s : SetupStore) (settings history : LoadResult) (m : M)
      → (begin s settings history m).1.active ≡ true
      → settings ≡ LoadResult.loaded
  unfolding begin
  setup_begin_active s settings history m on =
      let ready : SetupStore = record { healthy = false; active = false; opened = true } in
      ground (
        arith,
        is_loaded→eq settings,
        active_read ready settings (nvs.size_of setup m) (nvs.get_blob setup m) m refl,
      )

  activate_wrote :
      (s : SetupStore) (m : M)
      → s.opened ≡ true
      → s.active ≡ false
      → (activate s m).0 ≡ true
      → ((put_blob nvs setup (setup_record true) m).0 ≡ true)
        × ((activate s m).2 ≡ (put_blob nvs setup (setup_record true) m).1)
  unfolding activate write
  activate_wrote s m opened off done = (ground (arith, opened, off), ground (arith, opened, off))

  begin_found :
      (history : LoadResult) (m : M)
      → nvs.size_of setup m ≡ found 8
      → nvs.get_blob setup m ≡ some (setup_record true)
      → results_refused LoadResult.loaded history ≡ false
      → nvs.opens setup m ≡ true
      → begin new_setup LoadResult.loaded history m
        ≡ (true, record { healthy = true; active = true; opened = true }, m)
  unfolding begin read_setup record_refused
  begin_found history m size blob fine opens = rw (size, blob, fine, opens) refl

  -- What a successful `activate` of an open store that was not active wrote makes the next start
  -- active, with loaded settings and a history that is not refused, if NVS opens and a committed
  -- blob is found again.
  pub setup_begin-activate :
      (s : SetupStore) (m : M) (history : LoadResult)
      → Commits nvs
      → s.opened ≡ true
      → s.active ≡ false
      → (activate s m).0 ≡ true
      → results_refused LoadResult.loaded history ≡ false
      → nvs.opens setup (activate s m).2 ≡ true
      → begin new_setup LoadResult.loaded history (activate s m).2
        ≡ (true, record { healthy = true; active = true; opened = true }, (activate s m).2)
  setup_begin-activate s m history commits opened off done fine opens =
      let wrote = activate_wrote s m opened off done in
      let kept = commits setup (setup_record true) m wrote.0 in
      begin_found history (activate s m).2 (ap (nvs.size_of setup) wrote.1 ∙ kept.0)
        (ap (nvs.get_blob setup) wrote.1 ∙ kept.1) fine opens
