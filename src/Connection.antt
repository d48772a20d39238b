-- ===== src/Connection.antt =====
-- firmware/esphome/components/openathan_display/connection.h: what the display shows of the
-- connection. The encoder of the QR code, a library, is a parameter; an array of characters is its
-- text.
pub mod Cache
pub mod Code
use openathan.Base.{
  ℕ, ◌+◌, ◌-◌, ◌*◌, Bool, true, false, not, ◌&&◌, ◌||◌, Option, none, some, List, [], ◌∷◌, ◌++◌,
  length, ltb, leb, ◌==◌, bool_eq, list_eq, if◌then◌else◌,
}
use openathan.Device.Wifi.{all}

pub record ConnectionInfo : Type 0 where
  pub hostname : List ℕ
  pub ipv4 : List ℕ
  pub connected : Bool
  pub playback_busy : Bool
  pub setup_active : Bool
  pub setup_connecting : Bool
  pub setup_error : Bool
  pub setup_ssid : List ℕ
  pub setup_ipv4 : List ℕ

pub record ConnectionFrame : Type 0 where
  pub hostname : List ℕ
  pub ipv4 : List ℕ
  pub qr : List ℕ
  pub available : Bool
  pub connected : Bool
  pub qr_valid : Bool
  pub setup_ssid : List ℕ
  pub setup_active : Bool
  pub setup_connecting : Bool
  pub setup_error : Bool

-- The loop of `valid_ipv4`, with its three counters.
abbrev ipv4_groups : List ℕ → ℕ → ℕ → ℕ → Bool
ipv4_groups [] groups octet digits = groups == 3 && not (digits == 0)
ipv4_groups (ch ∷ rest) groups octet digits =
    let value = octet * 10 + (ch - b'0') in
    let same = ipv4_groups rest groups value (digits + 1) in
    let next = ipv4_groups rest (groups + 1) 0 0 in
    if leb b'0' ch && leb ch b'9'
    then (if ltb 3 (digits + 1) || ltb 255 value then false else same)
    else if ch == b'.' && not (digits == 0) && ltb groups 3
    then next
    else false

abbrev nowhere : List ℕ
nowhere = b'0' ∷ b'.' ∷ b'0' ∷ b'.' ∷ b'0' ∷ b'.' ∷ b'0' ∷ []

unfoldable pub valid_ipv4 : List ℕ → Bool
valid_ipv4 value = ipv4_groups value 0 0 0 && not (list_eq value nowhere)

abbrev within : ℕ → ℕ → ℕ → Bool
within low high ch = leb low ch && leb ch high

abbrev pub ssid_char : ℕ → Bool
ssid_char ch = within b'A' b'Z' ch || within b'a' b'z' ch || within b'0' b'9' ch || ch == b'-'

abbrev pub host_char : ℕ → Bool
host_char ch = within b'a' b'z' ch || within b'0' b'9' ch || ch == b'-' || ch == b'.'

-- "WIFI:T:nopass;S:%s;;" and "http://%s/".
abbrev pub wifi_payload : List ℕ → List ℕ
wifi_payload ssid =
    b'W'
    ∷ b'I'
    ∷ b'F'
    ∷ b'I'
    ∷ b':'
    ∷ b'T'
    ∷ b':'
    ∷ b'n'
    ∷ b'o'
    ∷ b'p'
    ∷ b'a'
    ∷ b's'
    ∷ b's'
    ∷ b';'
    ∷ b'S'
    ∷ b':'
    ∷ (ssid ++ b';' ∷ b';' ∷ [])

abbrev pub url_payload : List ℕ → List ℕ
url_payload hostname = b'h' ∷ b't' ∷ b't' ∷ b'p' ∷ b':' ∷ b'/' ∷ b'/' ∷ (hostname ++ b'/' ∷ [])

-- `snprintf` into `size` characters, and `encode_qr`.
abbrev pub coded : ConnectionFrame → Option (List ℕ) → ConnectionFrame
coded out none = record out { qr = []; qr_valid = false }
coded out (some code) = record out { qr = code; qr_valid = true }

unfoldable pub encode_qr :
    (List ℕ → Option (List ℕ)) → ConnectionFrame → List ℕ → ℕ → ConnectionFrame
encode_qr encode out payload size =
    if ltb (length payload) size then coded out (encode payload) else out

-- The frame of the temporary network, from the one with the flags.
unfoldable pub setup_frame :
    (List ℕ → Option (List ℕ)) → ConnectionInfo → ConnectionFrame → ConnectionFrame
setup_frame encode info out =
    let named : ConnectionFrame = record out { setup_ssid = info.setup_ssid; available = true } in
    let reached : ConnectionFrame = record named { ipv4 = info.setup_ipv4 } in
    if length info.setup_ssid == 0 || leb 33 (length info.setup_ssid)
    then out
    else if not (all ssid_char info.setup_ssid)
    then out
    else if info.setup_connecting
    then named
    else if leb 16 (length info.setup_ipv4) || not (valid_ipv4 info.setup_ipv4)
    then named
    else encode_qr encode reached (wifi_payload info.setup_ssid) 51

-- The frame of a working network.
unfoldable pub station_frame :
    (List ℕ → Option (List ℕ)) → ConnectionInfo → ConnectionFrame → ConnectionFrame
station_frame encode info out =
    let named : ConnectionFrame = record out { available = true; hostname = info.hostname } in
    let reached : ConnectionFrame = record named { ipv4 = info.ipv4 } in
    if length info.hostname == 0 || leb 70 (length info.hostname)
    then out
    else if not (all host_char info.hostname)
    then out
    else if not info.connected
    then named
    else if not (ltb (length info.ipv4) 16 && valid_ipv4 info.ipv4)
    then named
    else encode_qr encode reached (url_payload info.hostname) 78

unfoldable pub connection_frame : (List ℕ → Option (List ℕ)) → ConnectionInfo → ConnectionFrame
connection_frame encode info =
    let active = info.setup_active || info.setup_connecting in
    let out : ConnectionFrame = record {
      hostname = [];
      ipv4 = [];
      qr = [];
      available = false;
      connected = info.connected;
      qr_valid = false;
      setup_ssid = [];
      setup_active = active;
      setup_connecting = info.setup_connecting;
      setup_error = info.setup_error;
    } in
    if active then setup_frame encode info out else station_frame encode info out

pub record ConnectionCache : Type 0 where
  pub last : ConnectionInfo
  pub frame : ConnectionFrame
  pub valid : Bool

-- The fields that `read` compares.
unfoldable pub info_changed : ConnectionInfo → ConnectionInfo → Bool
info_changed info last =
    not (list_eq info.hostname last.hostname)
    || not (list_eq info.ipv4 last.ipv4)
    || not (bool_eq info.connected last.connected)
    || not (bool_eq info.setup_active last.setup_active)
    || not (bool_eq info.setup_connecting last.setup_connecting)
    || not (bool_eq info.setup_error last.setup_error)
    || not (list_eq info.setup_ssid last.setup_ssid)
    || not (list_eq info.setup_ipv4 last.setup_ipv4)

unfoldable pub read :
    (List ℕ → Option (List ℕ))
    → ConnectionCache
    → ConnectionInfo
    → ConnectionFrame × ConnectionCache
read encode c info =
    let fresh = connection_frame encode info in
    if not c.valid || info_changed info c.last
    then (fresh, record { last = info; frame = fresh; valid = true })
    else (c.frame, c)
