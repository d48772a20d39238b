-- ===== src/Connection/Cache.antt =====
-- The cache of the connection's frame.
use openathan.Base.{
  ℕ, ◌≡◌, ◌⊎◌, inl, inr, refl, sym, ap, ◌∙◌, Bool, false, not, ◌||◌, Option, List, [], ◌∷◌, map,
  list_eq→eq, Bool-cases, arith,
}
use openathan.Connection.{
  ConnectionInfo, ConnectionFrame, ConnectionCache, connection_frame, setup_frame, station_frame,
  info_changed, read,
}

-- But for the flag that the frame does not show.
abbrev with_busy : ConnectionInfo → Bool → ConnectionInfo
with_busy info b = record info { playback_busy = b }

unchanged :
    (info last : ConnectionInfo)
    → info_changed info last ≡ false
    → with_busy last info.playback_busy ≡ info
unfolding info_changed
unchanged info last h = ground (
  arith,
  h,
  list_eq→eq info.hostname last.hostname,
  list_eq→eq info.ipv4 last.ipv4,
  list_eq→eq info.setup_ssid last.setup_ssid,
  list_eq→eq info.setup_ipv4 last.setup_ipv4,
)

module _ (encode : List ℕ → Option (List ℕ)) where
  frame-with_busy :
      (info : ConnectionInfo) (b : Bool)
      → connection_frame encode (with_busy info b) ≡ connection_frame encode info
  unfolding connection_frame setup_frame station_frame
  frame-with_busy info b = refl

  -- A valid cache holds the frame of its input.
  abbrev IsCached : ConnectionCache → Type 0
  IsCached c = (c.valid ≡ false) ⊎ (c.frame ≡ connection_frame encode c.last)

  kept :
      (c : ConnectionCache) (info : ConnectionInfo)
      → IsCached c
      → (not c.valid || info_changed info c.last) ≡ false
      → c.frame ≡ connection_frame encode info
  kept c info (inl off) old = ground (arith, off, old)
  kept c info (inr is) old =
      let same : info_changed info c.last ≡ false = ground (arith, old) in
      is
      ∙ sym (frame-with_busy c.last info.playback_busy)
      ∙ ap (connection_frame encode) (unchanged info c.last same)

  read-IsCached :
      (c : ConnectionCache) (info : ConnectionInfo)
      → IsCached c
      → ((read encode c info).0 ≡ connection_frame encode info) × IsCached (read encode c info).1
  unfolding read
  read-IsCached c info h = elim (Bool-cases (not c.valid || info_changed info c.last)) [
    | inl new ↦ rw new (refl, inr refl)
    | inr old ↦ rw old (kept c info h old, h)
  ]

  unfoldable pub read_all : ConnectionCache → List ConnectionInfo → List ConnectionFrame
  read_all c [] = []
  read_all c (i ∷ is) = let r = read encode c i in r.0 ∷ read_all r.1 is

  all_read :
      (c : ConnectionCache) (is : List ConnectionInfo)
      → IsCached c
      → read_all c is ≡ map (connection_frame encode) is
  unfolding read_all
  all_read c [] h = refl
  all_read c (i ∷ is) h =
      let now = read-IsCached c i h in cc (now.0, all_read (read encode c i).1 is now.1)

  -- A cache that starts empty gives, for any sequence of inputs, the frame of each of them.
  pub read_all-connection_frame :
      (c : ConnectionCache) (is : List ConnectionInfo)
      → c.valid ≡ false
      → read_all c is ≡ map (connection_frame encode) is
  read_all-connection_frame c is h = all_read c is (inl h)
