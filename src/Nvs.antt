-- ===== src/Nvs.antt =====
-- The stores of firmware/esphome/components/openathan over the flash library NVS:
-- nvs_settings_store.cpp, nvs_state_store.cpp and setup_store.cpp. NVS is a parameter: a medium `M`
-- with one blob for each key, and the hypotheses that its documentation gives.
pub mod Stores
pub mod Durable
pub mod Services
pub mod Setup
use openathan.Base.{
  ℕ, ◌≡◌, ◌⊎◌, Bool, true, false, not, ◌||◌, ◌&&◌, arith, Option, none, some, List, length, ◌==◌,
  if◌then◌else◌,
}
use openathan.Storage.{LoadResult, Store}

-- The keys, each in the namespace of its store.
pub data Key : Type 0 where
  scheduler settings lights time_format dua speaker_name display setup wifi password volume : Key

-- What `nvs_get_blob` without a buffer answers: ESP_ERR_NVS_NOT_FOUND, another error, or a length.
pub data Size : Type 0 where
  not_found failed : Size
  found : ℕ → Size

-- `opens` is `nvs_open`, `get_blob` the call with a buffer.
pub record Nvs (M : Type 0) : Type 0 where
  pub opens : Key → M → Bool
  pub size_of : Key → M → Size
  pub get_blob : Key → M → Option (List ℕ)
  pub set_blob : Key → List ℕ → M → Bool × M
  pub commit : Key → M → Bool × M

-- `nvs_set_blob(..) == ESP_OK && nvs_commit(..) == ESP_OK`, as every store writes.
unfoldable pub put_blob : {M : Type 0} → Nvs M → Key → List ℕ → M → Bool × M
put_blob nvs key r m =
    let set = nvs.set_blob key r m in if not set.0 then (false, set.1) else nvs.commit key set.1

-- A blob that was set and committed is found again.
abbrev pub Commits : {M : Type 0} → Nvs M → Type 0
Commits {M} nvs =
    (key : Key) (r : List ℕ) (m : M)
    → (put_blob nvs key r m).0 ≡ true
    → (nvs.size_of key (put_blob nvs key r m).1 ≡ found (length r))
      × (nvs.get_blob key (put_blob nvs key r m).1 ≡ some r)

-- What a store keeps: its key, the size of its record, the values that `save` does not refuse, and
-- the record's two directions.
pub record Codec (V : Type 0) : Type 0 where
  pub key : Key
  pub size : ℕ
  pub accepts : V → Bool
  pub encode : V → List ℕ
  pub decode : List ℕ → Option V

module _ {M V : Type 0} (nvs : Nvs M) (c : Codec V) where
  -- The last test of `load`: the out-parameter keeps its value where the record is refused.
  abbrev decoded : V → Option V → LoadResult × V
  decoded d none = (LoadResult.error, d)
  decoded d (some v) = (LoadResult.loaded, v)

  abbrev got : V → ℕ → Option (List ℕ) → LoadResult × V
  got d n none = (LoadResult.error, d)
  got d n (some r) = if not (length r == n) then (LoadResult.error, d) else decoded d (c.decode r)

  abbrev sized : V → Size → Option (List ℕ) → LoadResult × V
  sized d not_found blob = (LoadResult.empty, d)
  sized d failed blob = (LoadResult.error, d)
  sized d (found n) blob = if not (n == c.size) then (LoadResult.error, d) else got d n blob

  -- `load` behind a handle that is open.
  unfoldable pub load_opened : V → M → LoadResult × V
  load_opened d m = sized d (nvs.size_of c.key m) (nvs.get_blob c.key m)

  -- `load` and `save`, with `opened_`.
  unfoldable pub load : Bool → V → M → LoadResult × V × Bool
  unfolding load_opened
  load opened d m =
      let result = load_opened d m in
      if not opened && not (nvs.opens c.key m)
      then (LoadResult.error, d, false)
      else (result.0, result.1, true)

  unfoldable pub save : Bool → V → M → Bool × M
  unfolding put_blob
  save opened v m =
      if not opened || not (c.accepts v) then (false, m) else put_blob nvs c.key (c.encode v) m

  -- The store that a service has once its first load has opened the handle.
  abbrev pub opened_store : Store M V
  opened_store = record { load = load_opened; save = save true }

  -- A record of the right size that is decoded is loaded.
  pub load_found :
      (d : V) (r : List ℕ) (v : V) (m : M)
      → nvs.size_of c.key m ≡ found (length r)
      → nvs.get_blob c.key m ≡ some r
      → length r ≡ c.size
      → c.decode r ≡ some v
      → load_opened d m ≡ (LoadResult.loaded, v)
  unfolding load_opened
  load_found d r v m size blob fits decodes = rw (size, blob, fits, decodes) (ground arith)

  -- The first load opens the handle or fails, and is then the load of the opened store.
  pub load_opens :
      (d : V) (m : M)
      → nvs.opens c.key m ≡ true
      → load false d m ≡ ((load_opened d m).0, (load_opened d m).1, true)
  unfolding load
  load_opens d m h = ground (arith, h)
