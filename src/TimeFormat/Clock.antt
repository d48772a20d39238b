-- ===== src/TimeFormat/Clock.antt =====
-- `format_clock`: a time of day as text. A text is a list of bytes; an array of characters is the
-- text up to its terminator, so `{}` is the empty text.
use openathan.Base.{
  ℕ, ◌+◌, ◌-◌, ◌*◌, ◌/◌, ◌%◌, ◌≡◌, refl, Bool, not, ◌&&◌, ◌||◌, List, [], ◌∷◌, ◌++◌, length, get_or,
  ltb, ◌==◌, if◌then◌else◌,
}

unfoldable pub clock_refused : List ℕ → Bool
clock_refused value =
    not (length value == 5)
    || not (get_or value 2 0 == b':')
    || ltb (get_or value 0 0) b'0'
    || ltb b'2' (get_or value 0 0)
    || ltb (get_or value 1 0) b'0'
    || ltb b'9' (get_or value 1 0)
    || (get_or value 0 0 == b'2' && ltb b'3' (get_or value 1 0))
    || ltb (get_or value 3 0) b'0'
    || ltb b'5' (get_or value 3 0)
    || ltb (get_or value 4 0) b'0'
    || ltb b'9' (get_or value 4 0)

-- "%02u" and "%u" of a number below a hundred.
abbrev pub two_digits : ℕ → List ℕ
two_digits n = (b'0' + n / 10) ∷ (b'0' + n % 10) ∷ []

abbrev pub digits : ℕ → List ℕ
digits n = if ltb n 10 then (b'0' + n) ∷ [] else two_digits n

abbrev pub twelve : ℕ → ℕ
twelve hour = if hour % 12 == 0 then 12 else hour % 12

-- Both formats fit the array of nine characters.
unfoldable pub clock_text : ℕ → ℕ → ℕ → List ℕ
clock_text hours hour minute =
    if hours == 12
    then digits (twelve hour)
      ++ (b':' ∷ (two_digits minute ++ b' ' ∷ (if ltb hour 12 then b'A' else b'P') ∷ b'M' ∷ []))
    else two_digits hour ++ (b':' ∷ two_digits minute)

abbrev pub number_at : List ℕ → ℕ → ℕ
number_at value i = (get_or value i 0 - b'0') * 10 + get_or value (i + 1) 0 - b'0'

unfoldable pub format_clock : List ℕ → ℕ → List ℕ
unfolding clock_refused clock_text
format_clock value hours =
    if clock_refused value then [] else clock_text hours (number_at value 0) (number_at value 3)

clock_examples :
    (format_clock (b'0' ∷ b'0' ∷ b':' ∷ b'0' ∷ b'5' ∷ []) 12
      ≡ b'1' ∷ b'2' ∷ b':' ∷ b'0' ∷ b'5' ∷ b' ' ∷ b'A' ∷ b'M' ∷ [])
    × (format_clock (b'2' ∷ b'4' ∷ b':' ∷ b'0' ∷ b'0' ∷ []) 24 ≡ [])
unfolding format_clock
clock_examples = (refl, refl)
