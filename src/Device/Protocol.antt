-- ===== src/Device/Protocol.antt =====
-- firmware/esphome/components/openathan_device/protocol.cpp: the frames of the serial line and the
-- calls that they carry. Bytes are numbers below 256, and strings are lists of them.
pub mod Calls
pub mod Frames
pub mod Reading
use openathan.Base.{
  ℕ, zero, suc, ◌+◌, ◌-◌, ◌%◌, ◌<◌, Bool, true, false, not, ◌&&◌, ◌||◌, Option, none, some, List,
  [], ◌∷◌, ◌++◌, length, take, drop, get_or, ltb, leb, ◌==◌, list_eq, if◌then◌else◌,
}
use openathan.Device.Wifi.{contains}

pub record Frame : Type 0 where
  pub extension : Bool
  pub type : ℕ
  pub data_bytes : List ℕ

pub record SerialParser : Type 0 where
  pub bytes : List ℕ
  pub last : ℕ

abbrev pub improv : List ℕ
improv = b'I' ∷ b'M' ∷ b'P' ∷ b'R' ∷ b'O' ∷ b'V' ∷ []

abbrev pub oathan : List ℕ
oathan = b'O' ∷ b'A' ∷ b'T' ∷ b'H' ∷ b'A' ∷ b'N' ∷ []

-- A byte sum.
abbrev pub sum : List ℕ → ℕ
sum [] = 0
sum (x ∷ xs) = (x + sum xs) % 256

-- `std::equal(bytes, header)` of at most six bytes.
abbrev begins : List ℕ → List ℕ → Bool
begins bytes header = list_eq bytes (take (length bytes) header)

-- The loop that erases bytes from the front.
unfoldable pub trim : List ℕ → List ℕ
trim [] = []
trim (x ∷ xs) =
    let rest = trim xs in
    if not (begins (x ∷ xs) improv) && not (begins (x ∷ xs) oathan) then rest else x ∷ xs

-- The tests on a header of six bytes and more.
unfoldable pub feed_long : List ℕ → ℕ → SerialParser × Option Frame
feed_long bytes now =
    let n = length bytes in
    if not (get_or bytes 6 0 == 1)
    then (record { bytes = []; last = now }, none)
    else if ltb n 9 || ltb n (get_or bytes 8 0 + 10)
    then (record { bytes = bytes; last = now }, none)
    else if sum (take (n - 1) bytes) == get_or bytes (n - 1) 0
    then (
      record { bytes = []; last = now },
      some (record {
        extension = get_or bytes 0 0 == b'O';
        type = get_or bytes 7 0;
        data_bytes = take (n - 10) (drop 9 bytes);
      }),
    )
    else (record { bytes = []; last = now }, none)

unfoldable pub feed : SerialParser → ℕ → ℕ → SerialParser × Option Frame
unfolding trim feed_long
feed p byte now =
    let kept = if ltb now p.last || ltb 1000 (now - p.last) then [] else p.bytes in
    let bytes = kept ++ byte ∷ [] in
    if leb (length bytes) 6
    then (record { bytes = trim bytes; last = now }, none)
    else feed_long bytes now

unfoldable pub frame : Bool → ℕ → List ℕ → List ℕ
frame extension type data_bytes =
    let header = if extension then oathan else improv in
    let out = header ++ (1 ∷ type ∷ length data_bytes % 256 ∷ data_bytes) in
    if ltb 255 (length data_bytes) then [] else out ++ sum out ∷ b'\n' ∷ []

-- The loop of `rpc`; `none` is its early return.
abbrev pub put_fields : List ℕ → List (List ℕ) → Option (List ℕ)
put_fields out [] = some out
put_fields out (field ∷ fields) =
    let rest = put_fields (out ++ (length field % 256 ∷ field)) fields in
    if ltb 251 (length field) || ltb 255 (length out + 1 + length field) then none else rest

abbrev with_size : Option (List ℕ) → List ℕ
with_size none = []
with_size (some out) = take 1 out ++ ((length out - 2) % 256 ∷ drop 2 out)

unfoldable pub rpc : ℕ → List (List ℕ) → List ℕ
rpc command fields = with_size (put_fields (command ∷ 0 ∷ []) fields)

-- How the loop of `parse_rpc` ends: with the fields, or by its return of false. `out_of_fuel` is no
-- result of the code.
pub data Fields : Type 0 where
  out_of_fuel refused : Fields
  read_all : List (List ℕ) → Fields

abbrev pub put_front : List ℕ → Fields → Fields
put_front field (read_all fields) = read_all (field ∷ fields)
put_front field other = other

abbrev pub with_command : ℕ → Fields → Option (ℕ × List (List ℕ))
with_command command (read_all fields) = some (command, fields)
with_command command _ = none

-- The loop of `parse_rpc`, on what is left of the data; every round takes a byte at least, so
-- the length of the data is enough fuel.
abbrev pub get_fields : ℕ → List ℕ → Fields
get_fields fuel [] = read_all []
get_fields zero (size ∷ rest) = out_of_fuel
get_fields (suc fuel) (size ∷ rest) =
    let fields = get_fields fuel (drop size rest) in
    if ltb (length rest) size
    then refused
    else if contains 0 (take size rest)
    then refused
    else put_front (take size rest) fields

-- The command and the fields, where it returns true.
unfoldable pub parse_rpc : List ℕ → Option (ℕ × List (List ℕ))
parse_rpc bytes =
    if ltb (length bytes) 2 || not (get_or bytes 1 0 + 2 == length bytes)
    then none
    else with_command (get_or bytes 0 0) (get_fields (length bytes) (drop 2 bytes))
