-- ===== src/Device/Release.antt =====
-- firmware/esphome/components/openathan_device/upgrade_policy.h: which release may replace which, and
-- when. `std::from_chars` is that of an unsigned number of 32 bits.
pub mod Policy
use openathan.Base.{
  ℕ, zero, suc, ◌+◌, ◌-◌, ◌*◌, ℤ, pos, ltb_ℤ, leb_ℤ, ◌-ℤ◌, Bool, true, false, not, ◌&&◌, ◌||◌,
  Option, none, some, List, [], ◌∷◌, length, take, drop, get_or, ltb, leb, ◌==◌, if◌then◌else◌,
}
use openathan.Bytes.{u32_mod}
use openathan.Scheduler.{Fault, no_fault}
use openathan.Device.Wifi.{all}

abbrev pub boot_scheduler_healthy : Fault → Bool
boot_scheduler_healthy no_fault = true
boot_scheduler_healthy _ = false

abbrev add_one : Option ℕ → Option ℕ
add_one none = none
add_one (some n) = some (suc n)

-- `find`, with its position.
abbrev find : ℕ → List ℕ → Option ℕ
find c [] = none
find c (x ∷ xs) = if x == c then some 0 else add_one (find c xs)

abbrev digit : ℕ → Bool
digit c = leb b'0' c && leb c b'9'

abbrev value_from : ℕ → List ℕ → ℕ
value_from n [] = n
value_from n (x ∷ xs) = value_from (n * 10 + (x - b'0')) xs

-- `from_chars` that succeeds and reaches the end of the text.
abbrev pub from_chars : List ℕ → Option ℕ
from_chars text =
    if not (all digit text) || length text == 0 || leb u32_mod (value_from 0 text)
    then none
    else some (value_from 0 text)

-- A round of the loop: the part in front of `end`.
unfoldable pub part : List ℕ → ℕ → Option ℕ
part value end =
    if end == 0 || (ltb 1 end && get_or value 0 0 == b'0')
    then none
    else from_chars (take end value)

abbrev three : Option ℕ → Option ℕ → Option ℕ → Option (ℕ × ℕ × ℕ)
three (some a) (some b) (some c) = some (a, b, c)
three _ _ _ = none

-- The three rounds behind the "v".
unfoldable pub parts : List ℕ → Option (ℕ × ℕ × ℕ)
unfolding part
parts value = elim (find b'.' value) [
  | none ↦ none
  | some end ↦
      let rest = drop (end + 1) value in
      elim (find b'.' rest) [
        | none ↦ none
        | some second ↦
            let last = drop (second + 1) rest in
            three (part value end) (part rest second) (part last (length last))
      ]
]

unfoldable pub release_version : List ℕ → Option (ℕ × ℕ × ℕ)
release_version value =
    if length value == 0 || not (get_or value 0 0 == b'v') then none else parts (drop 1 value)

-- The order of `std::array`.
abbrev pub above : ℕ × ℕ × ℕ → ℕ × ℕ × ℕ → Bool
above a b = ltb b.0 a.0 || (b.0 == a.0 && (ltb b.1 a.1 || (b.1 == a.1 && ltb b.2 a.2)))

abbrev newer : Option (ℕ × ℕ × ℕ) → Option (ℕ × ℕ × ℕ) → Bool
newer (some a) (some b) = above a b
newer _ _ = false

unfoldable pub newer_release : List ℕ → List ℕ → Bool
newer_release candidate current = newer (release_version candidate) (release_version current)

abbrev far : ℤ → Option ℤ → Bool
far now none = true
far now (some next) = ltb_ℤ now next && leb_ℤ (pos 900) (next -ℤ now)

unfoldable pub upgrade_window : Bool → Bool → Bool → Bool → ℤ → Option ℤ → Bool
upgrade_window playing clock activated ready now next =
    if playing || not clock then false else if not activated then true else ready && far now next
