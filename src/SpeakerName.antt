-- ===== src/SpeakerName.antt =====
-- lib/openathan-core/src/speaker_name.cpp and include/openathan/speaker_name.h: the speaker's name,
-- UTF-8 text of at most thirty-two characters, and the service that keeps it. A string is its list
-- of bytes.
pub mod Text
pub mod Service
pub mod Record
use openathan.Base.{
  ℕ, zero, suc, ◌+◌, ◌-◌, ◌*◌, ◌/◌, ◌%◌, Bool, true, false, not, ◌&&◌, ◌||◌, Option, none, some,
  List, [], ◌∷◌, length, ltb, leb, ◌==◌, if◌then◌else◌,
}

pub record SavedSpeakerName : Type 0 where
  pub revision : ℕ
  pub name : List ℕ

unfoldable pub space : ℕ → Bool
space c = c == 32 || (leb 9 c && leb c 13)

-- The loops that remove a prefix and a suffix.
unfoldable pub trim_front : List ℕ → List ℕ
unfolding space
trim_front [] = []
trim_front (c ∷ cs) = let rest = trim_front cs in if space c then rest else c ∷ cs

abbrev pub cons_trimmed : ℕ → List ℕ → List ℕ
cons_trimmed c [] = if space c then [] else c ∷ []
cons_trimmed c (d ∷ ds) = c ∷ d ∷ ds

unfoldable pub trim_back : List ℕ → List ℕ
trim_back [] = []
trim_back (c ∷ cs) = cons_trimmed c (trim_back cs)

-- `count`, `extra`, `code`, and how many of the extra bytes are still to come.
pub record Scan : Type 0 where
  pub count : ℕ
  pub extra : ℕ
  pub code : ℕ
  pub left : ℕ

abbrev pub scan_start : Scan
scan_start = record { count = 0; extra = 0; code = 0; left = 0 }

-- The test at the end of the loop's body, in a character of `extra + 1` bytes.
unfoldable pub code_refused : ℕ → ℕ → Bool
code_refused extra code =
    (extra == 1 && ltb code 0x80)
    || (extra == 2 && ltb code 0x800)
    || (extra == 3 && ltb code 0x10000)
    || ltb 0x10FFFF code
    || (leb 0xD800 code && leb code 0xDFFF)
    || ltb code 0x20
    || (leb 0x7F code && leb code 0x9F)

finish_character : ℕ → ℕ → ℕ → Option Scan
unfolding code_refused
finish_character count extra code =
    if code_refused extra code || ltb 32 (count + 1)
    then none
    else some (record { count = count + 1; extra = 0; code = 0; left = 0 })

-- In a character of `extra + 1` bytes, with all of them but the first to come.
abbrev within : ℕ → ℕ → ℕ → Option Scan
within count extra code = some (record { count = count; extra = extra; code = code; left = extra })

-- The first byte of a character: what it adds to the code, and the bytes that follow it.
begin_character : ℕ → ℕ → Option Scan
unfolding finish_character
begin_character count first =
    if leb 0xC2 first && leb first 0xDF
    then within count 1 (first % 32)
    else if leb 0xE0 first && leb first 0xEF
    then within count 2 (first % 16)
    else if leb 0xF0 first && leb first 0xF4
    then within count 3 (first % 8)
    else if leb 0x80 first
    then none
    else finish_character count 0 first

-- One byte of the two nested loops.
unfoldable pub scan_byte : Scan → ℕ → Option Scan
unfolding begin_character finish_character
scan_byte s next =
    let code = s.code * 64 + next % 64 in
    if s.left == 0
    then begin_character s.count next
    else if not (next / 64 == 2)
    then none
    else if s.left == 1
    then finish_character s.count s.extra code
    else some (record s { code = code; left = s.left - 1 })

-- The loop. Text that ends inside a character is refused.
unfoldable pub scan : Scan → List ℕ → Bool
unfolding scan_byte
scan s [] = s.left == 0
scan s (b ∷ bs) = elim (scan_byte s b) [ none ↦ false | some t ↦ scan t bs ]

unfoldable pub normalize_speaker_name : List ℕ → Option (List ℕ)
unfolding trim_front trim_back scan
normalize_speaker_name input =
    let text = trim_back (trim_front input) in
    if ltb 128 (length text) then none else if scan scan_start text then some text else none
