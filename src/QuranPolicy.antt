-- ===== src/QuranPolicy.antt =====
-- firmware/esphome/components/openathan_audio/quran_policy.h: which recitations may be streamed, and
-- the objects of a catalogue as its bytes come.
pub mod Objects
use openathan.Base.{
  ℕ, ◌+◌, ◌-◌, ◌≤◌, Bool, true, false, not, ◌&&◌, ◌||◌, Option, none, some, List, [], ◌∷◌, ◌++◌,
  length, take, drop, get_or, ltb, leb, ◌==◌, list_eq, if◌then◌else◌, suc,
}
use openathan.Device.Wifi.{all}

abbrev add_one : Option ℕ → Option ℕ
add_one none = none
add_one (some n) = some (suc n)

abbrev find : ℕ → List ℕ → Option ℕ
find c [] = none
find c (x ∷ xs) = if x == c then some 0 else add_one (find c xs)

abbrev digit : ℕ → Bool
digit c = leb b'0' c && leb c b'9'

-- `std::isalnum` in the C locale, and the four other characters.
abbrev path_char : ℕ → Bool
path_char c =
    digit c
    || (leb b'a' c && leb c b'z')
    || (leb b'A' c && leb c b'Z')
    || c == b'/'
    || c == b'-'
    || c == b'_'
    || c == b'.'

abbrev https : List ℕ
https = b'h' ∷ b't' ∷ b't' ∷ b'p' ∷ b's' ∷ b':' ∷ b'/' ∷ b'/' ∷ []

abbrev domain : List ℕ
domain =
    b'.' ∷ b'm' ∷ b'p' ∷ b'3' ∷ b'q' ∷ b'u' ∷ b'r' ∷ b'a' ∷ b'n' ∷ b'.' ∷ b'n' ∷ b'e' ∷ b't' ∷ []

abbrev cdn : List ℕ
cdn = b'c' ∷ b'd' ∷ b'n' ∷ domain

abbrev server : List ℕ
server = b's' ∷ b'e' ∷ b'r' ∷ b'v' ∷ b'e' ∷ b'r' ∷ []

-- The tests on the host; `number` is what stands between "server" and the domain.
unfoldable pub host_allowed : List ℕ → Bool
host_allowed host =
    let number = take (length host - 19) (drop 6 host) in
    if list_eq (take 6 host) server
      && ltb 19 (length host)
      && list_eq (drop (length host - 13) host) domain
    then not (length number == 0) && leb (length number) 3 && all digit number
    else list_eq host cdn

abbrev two_dots : List ℕ → Bool
two_dots [] = false
two_dots (x ∷ []) = false
two_dots (x ∷ y ∷ xs) = (x == b'.' && y == b'.') || two_dots (y ∷ xs)

-- The parts behind "https://", where the first "/" stands at `start` of them.
unfoldable pub parts_allowed : List ℕ → Option ℕ → Bool
unfolding host_allowed
parts_allowed rest none = false
parts_allowed rest (some start) =
    let path = drop start rest in
    host_allowed (take start rest) && all path_char path && not (two_dots path)

unfoldable pub quran_audio_url : List ℕ → Bool
quran_audio_url url =
    let rest = drop 8 url in
    if ltb 512 (length url)
    then false
    else list_eq (take 8 url) https && parts_allowed rest (find b'/' rest)

pub record QuranObjectStream : Type 0 where
  pub prefix : List ℕ
  pub item : List ℕ
  pub prefix_pos : ℕ
  pub bytes : ℕ
  pub depth : ℕ
  pub quoted : Bool
  pub escaped : Bool
  pub separator : Bool
  pub comma : Bool
  pub closed : Bool
  pub finished : Bool
  pub failed : Bool

abbrev is_space : ℕ → Bool
is_space c = c == 32 || (leb 9 c && leb c 13)

-- The answer, the stream and the object.
abbrev pub Fed : Type 0
Fed = Bool × QuranObjectStream × List ℕ

abbrev fail : QuranObjectStream → Fed
fail s = (false, record s { failed = true }, [])

abbrev goes_on : QuranObjectStream → Fed
goes_on s = (true, s, [])

-- Inside an object, behind the character.
unfoldable pub feed_item : QuranObjectStream → ℕ → Fed
feed_item s c =
    let item = s.item ++ c ∷ [] in
    let t : QuranObjectStream = record s { item = item } in
    if leb 16384 (length s.item)
    then fail s
    else if s.quoted
    then (if s.escaped
        then goes_on (record t { escaped = false })
        else if c == b'\\'
        then goes_on (record t { escaped = true })
        else if c == b'"'
        then goes_on (record t { quoted = false })
        else goes_on t)
    else if c == b'"'
    then goes_on (record t { quoted = true })
    else if c == b'{'
    then goes_on (record t { depth = s.depth + 1 })
    else if c == b'}'
    then (if s.depth == 1
        then (true, record t { depth = 0; item = []; separator = true }, item)
        else goes_on (record t { depth = s.depth - 1 }))
    else goes_on t

-- Between objects.
unfoldable pub feed_between : QuranObjectStream → ℕ → Fed
feed_between s c =
    if is_space c
    then goes_on s
    else if s.finished
    then fail s
    else if s.closed
    then (if not (c == b'}') then fail s else goes_on (record s { finished = true }))
    else if s.separator
    then (if c == b','
        then goes_on (record s { separator = false; comma = true })
        else if c == b']'
        then goes_on (record s { closed = true })
        else fail s)
    else if c == b']' && not s.comma
    then goes_on (record s { closed = true })
    else if not (c == b'{')
    then fail s
    else goes_on (record s { comma = false; depth = 1; item = b'{' ∷ [] })

unfoldable pub feed_prefix : QuranObjectStream → ℕ → Fed
feed_prefix s c =
    if is_space c && (leb s.prefix_pos 1 || leb (length s.prefix - 2) s.prefix_pos)
    then goes_on s
    else if not (c == get_or s.prefix s.prefix_pos 0)
    then fail (record s { prefix_pos = s.prefix_pos + 1 })
    else goes_on (record s { prefix_pos = s.prefix_pos + 1 })

unfoldable pub feed : QuranObjectStream → ℕ → Fed
feed s c =
    let t : QuranObjectStream = record s { bytes = s.bytes + 1 } in
    if ltb 1048576 t.bytes || s.failed
    then fail t
    else if ltb s.prefix_pos (length s.prefix)
    then feed_prefix t c
    else if not (s.depth == 0)
    then feed_item t c
    else feed_between t c

abbrev pub complete : QuranObjectStream → Bool
complete s = s.finished && not s.failed
