-- ===== src/Device/Wifi.antt =====
-- `WifiAttempt` of firmware/esphome/components/openathan_device/wifi_attempt.h, with `valid_wifi` and
-- `valid_password` of protocol.cpp. A string is a list of bytes.
pub mod Attempt
use openathan.Base.{
  ℕ, ◌-◌, Bool, true, false, not, ◌&&◌, ◌||◌, List, [], ◌∷◌, length, ltb, leb, ◌==◌, list_eq,
  if◌then◌else◌,
}

pub record WifiCredentials : Type 0 where
  pub ssid : List ℕ
  pub password : List ℕ

-- `find(c) != npos`, and `std::all_of`.
abbrev pub contains : ℕ → List ℕ → Bool
contains c [] = false
contains c (x ∷ xs) = x == c || contains c xs

abbrev pub all : (ℕ → Bool) → List ℕ → Bool
all p [] = true
all p (x ∷ xs) = p x && all p xs

abbrev hex_digit : ℕ → Bool
hex_digit c = (leb b'0' c && leb c b'9') || (leb b'a' c && leb c b'f') || (leb b'A' c && leb c b'F')

unfoldable pub valid_wifi : List ℕ → List ℕ → Bool
valid_wifi ssid password =
    if length ssid == 0 || ltb 32 (length ssid) || contains 0 ssid || contains 0 password
    then false
    else if length password == 0
    then false
    else if length password == 64
    then all hex_digit password
    else leb 8 (length password) && leb (length password) 63

abbrev printable_char : ℕ → Bool
printable_char c = leb 32 c && leb c 126

unfoldable pub valid_password : List ℕ → Bool
valid_password password =
    leb 12 (length password) && leb (length password) 128 && all printable_char password

pub data Result : Type 0 where
  wait start_connection connected timed_out : Result

-- The class's members.
pub record WifiAttempt : Type 0 where
  pub candidate : WifiCredentials
  pub started : ℕ
  pub phase : ℕ
  pub has_joined : Bool

abbrev pub no_credentials : WifiCredentials
no_credentials = record { ssid = []; password = [] }

abbrev pub new_attempt : WifiAttempt
new_attempt = record { candidate = no_credentials; started = 0; phase = 0; has_joined = false }

abbrev pub active : WifiAttempt → Bool
active a = not (a.phase == 0)

unfoldable pub begin : WifiAttempt → WifiCredentials → ℕ → Bool × WifiAttempt
begin a candidate now =
    if active a || not (valid_wifi candidate.ssid candidate.password)
    then (false, a)
    else (true, record { candidate = candidate; started = now; phase = 1; has_joined = false })

unfoldable pub joined : WifiAttempt → List ℕ → WifiAttempt
joined a ssid =
    if a.phase == 2 && list_eq ssid a.candidate.ssid then record a { has_joined = true } else a

unfoldable pub step : WifiAttempt → ℕ → Bool → List ℕ → Result × WifiAttempt
step a now is_connected ssid =
    if not (active a)
    then (wait, a)
    else if ltb now a.started || leb 30000 (now - a.started)
    then (timed_out, a)
    else if a.phase == 1 && not is_connected
    then (start_connection, record a { phase = 2 })
    else if a.phase == 2 && a.has_joined && is_connected && list_eq ssid a.candidate.ssid
    then (connected, a)
    else (wait, a)

unfoldable pub finish : WifiAttempt → WifiAttempt
finish a = record a { candidate = no_credentials; phase = 0; has_joined = false }
