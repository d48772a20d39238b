-- ===== src/Device/Usb/Quiet.antt =====
-- What commands and chunks over USB do not change where `usb_safe_` says no, and so when they go on.
use openathan.Base.{◌≡◌, ◌≢◌, ◌⊎◌, Bool}
use openathan.Device.Usb.{Upgrade}
use openathan.Device.Usb.Selected.{Call, on_command, on_chunk}

-- The image, the handoff and the selection are the same, and no transfer was opened.
abbrev pub Idles : Upgrade → Upgrade → Type 0
Idles u r =
    (r.image ≡ u.image)
    × (r.received ≡ u.received ⊎ r.received ≡ 0)
    × (r.expected ≡ u.expected)
    × (r.boot_selected ≡ u.boot_selected)
    × ((r.token ≡ u.token) ⊎ (r.token ≡ 0))

-- What counts as going on with an upgrade: a transfer is opened, the image or the number of its
-- bytes grows or is begun anew, the handoff is stored, or the partition is selected.
pub data Advances (u r : Upgrade) : Type 0 where
  opens : r.token ≢ u.token → r.token ≢ 0 → Advances u r
  writes : r.image ≢ u.image → Advances u r
  receives : r.received ≢ u.received → r.received ≢ 0 → Advances u r
  hands_over : r.expected ≢ u.expected → Advances u r
  selects : r.boot_selected ≢ u.boot_selected → Advances u r

-- What `usb_safe_` answers during a call.
abbrev pub safe_in : Call → Bool
safe_in (on_command a c fields) = a.safe
safe_in (on_chunk a c) = a.safe
