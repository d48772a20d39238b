-- ===== src/Nvs/Durable.antt =====
-- What the stores over NVS promise to the services behind them.
use openathan.Base.{◌≡◌, refl, Bool, true, false, not, some, length, if◌then◌else◌}
use openathan.Storage.{IsDurableOn}
use openathan.Nvs.{Nvs, Codec, Commits, opened_store, save, put_blob, load_found}

-- A write that succeeded was not refused.
pub refused_write :
    {M : Type 0} (refused : Bool) (m : M) (r : Bool × M)
    → (if refused then (false, m) else r).0 ≡ true
    → ((if refused then (false, m) else r) ≡ r) × (r.0 ≡ true)
refused_write true m r h = cc
refused_write false m r h = (refl, h)

-- A store keeps every value whose record has the store's size and is decoded to the value.
pub opened_store-IsDurableOn :
    {M V : Type 0} (nvs : Nvs M) (c : Codec V) (P : V → Type 0)
    → Commits nvs
    → ((v : V) → P v → c.decode (c.encode v) ≡ some v)
    → ((v : V) → P v → length (c.encode v) ≡ c.size)
    → IsDurableOn P (opened_store nvs c)
unfolding save
opened_store-IsDurableOn nvs c P commits round_trip sizes v d m ok saved =
    let wrote = refused_write (not (c.accepts v)) m (put_blob nvs c.key (c.encode v) m) saved in
    let kept = commits c.key (c.encode v) m wrote.1 in
    rw (wrote.0) (load_found nvs c d (c.encode v) v _ kept.0 kept.1 (sizes v ok) (round_trip v ok))
