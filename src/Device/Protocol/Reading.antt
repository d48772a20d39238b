-- ===== src/Device/Protocol/Reading.antt =====
-- `parse_rpc` on any data: its loop ends within the length of the data, and what it accepts is
-- spelled in one way only.
use mathlib.Core.Option.{some-injective}
use openathan.Base.{
  ℕ, zero, suc, ◌+◌, ◌%◌, ◌≤◌, ◌<◌, ◌≡◌, refl, ap, ◌∙◌, false, ◌||◌, not, some, List, [], ◌∷◌, ◌++◌,
  length, drop, take, All, ltb, ◌==◌, arith, if◌then◌else◌, guard_passed, Bool, true, ◌≢◌, if_both,
}
use openathan.Device.Wifi.{contains}
use openathan.Device.Protocol.{
  Fields, out_of_fuel, refused, read_all, get_fields, parse_rpc, put_front, with_command,
}
use openathan.Device.Protocol.Calls.{spelled, IsText, get_fields_nil}

length_drop_le : (n : ℕ) (xs : List ℕ) → length (drop n xs) ≤ length xs
length_drop_le zero xs = omega arith
length_drop_le (suc n) [] = omega arith
length_drop_le (suc n) (x ∷ xs) = omega (arith, length_drop_le n xs)

-- What one round does with the result of the rounds after it.
abbrev round : ℕ → List ℕ → Fields → Fields
round size rest fields =
    if ltb (length rest) size
    then refused
    else if contains 0 (take size rest)
    then refused
    else put_front (take size rest) fields

put_front_ends : (field : List ℕ) (o : Fields) → o ≢ out_of_fuel → put_front field o ≢ out_of_fuel
put_front_ends field out_of_fuel h e = h e
put_front_ends field refused h e = h e
put_front_ends field (read_all fields) h e = absurd (cc e)

round_ends :
    (size : ℕ) (rest : List ℕ) (o : Fields) → o ≢ out_of_fuel → round size rest o ≢ out_of_fuel
round_ends size rest o h =
    let P : Fields → Type 0 = λ x. x ≢ out_of_fuel in
    if_both P (ltb (length rest) size) (λ e. absurd (cc e))
      (if_both P (contains 0 (take size rest)) (λ e. absurd (cc e))
        (put_front_ends (take size rest) o h))

-- The loop of parse_rpc ends, on any data: with as much fuel as there are bytes, or more, it reads
-- all fields or refuses, and never stops for want of fuel.
pub get_fields_enough :
    (fuel : ℕ) (rest : List ℕ) → length rest ≤ fuel → get_fields fuel rest ≢ out_of_fuel
get_fields_enough zero [] h e = absurd (cc e)
get_fields_enough (suc fuel) [] h e = absurd (cc e)
get_fields_enough zero (size ∷ rest) h e = absurd (omega arith)
get_fields_enough (suc fuel) (size ∷ rest) h e =
    let ends =
      get_fields_enough fuel (drop size rest) (omega (arith, h, length_drop_le size rest)) in
    round_ends size rest (get_fields fuel (drop size rest)) ends e

-- Bytes that the loop reads as `fields`.
take-drop : (n : ℕ) (xs : List ℕ) → xs ≡ take n xs ++ drop n xs
take-drop zero xs = refl
take-drop (suc n) [] = refl
take-drop (suc n) (x ∷ xs) = ap (◌∷◌ x) (take-drop n xs)

length-take_le : (n : ℕ) (xs : List ℕ) → n ≤ length xs → length (take n xs) ≡ n
length-take_le zero xs h = refl
length-take_le (suc n) [] h = absurd (omega arith)
length-take_le (suc n) (x ∷ xs) h = omega (arith, length-take_le n xs (omega arith))

abbrev pub IsByte : ℕ → Type 0
IsByte b = b < 256

drop-All : (n : ℕ) (xs : List ℕ) → All IsByte xs → All IsByte (drop n xs)
drop-All zero xs h = h
drop-All (suc n) [] h = _
drop-All (suc n) (x ∷ xs) h = drop-All n xs h.1

put_front-some :
    (field : List ℕ) (o : Fields) (fields : List (List ℕ))
    → put_front field o ≡ read_all fields
    → (more : List (List ℕ)) × (o ≡ read_all more) × (fields ≡ field ∷ more)
put_front-some field out_of_fuel fields h = absurd (cc h)
put_front-some field refused fields h = absurd (cc h)
put_front-some field (read_all more) fields h = (more, refl, cc h)

not_refused :
    (b : Bool) (o : Fields) (fields : List (List ℕ))
    → (if b then refused else o) ≡ read_all fields
    → (b ≡ false) × (o ≡ read_all fields)
not_refused true o fields h = absurd (cc h)
not_refused false o fields h = (refl, h)

round-some :
    (size : ℕ) (rest : List ℕ) (o : Fields) (fields : List (List ℕ))
    → round size rest o ≡ read_all fields
    → (size ≤ length rest)
      × (contains 0 (take size rest) ≡ false)
      × (more : List (List ℕ)) × (o ≡ read_all more)
      × (fields ≡ take size rest ∷ more)
round-some size rest o fields h =
    let first = not_refused (ltb (length rest) size) _ fields h in
    let second = not_refused (contains 0 (take size rest)) _ fields first.1 in
    let last = put_front-some (take size rest) o fields second.1 in
    (ground (arith, first.0), second.0, last.0, last.1, last.2)

cong_size :
    (size : ℕ) (field rest more : List ℕ)
    → length field ≡ size
    → size < 256
    → rest ≡ field ++ more
    → size ∷ rest ≡ length field % 256 ∷ (field ++ more)
cong_size size field rest more l b e = rw (l, e) (ap (λ x. x ∷ (field ++ more)) (omega arith))

get_fields_canonical :
    (fuel : ℕ) (rest : List ℕ) (fields : List (List ℕ))
    → All IsByte rest
    → get_fields fuel rest ≡ read_all fields
    → (rest ≡ spelled fields) × All IsText fields
get_fields_canonical fuel [] fields b h =
    let e : fields ≡ [] = cc (h, get_fields_nil fuel) in rw e (refl, _)
get_fields_canonical zero (size ∷ rest) fields b h = absurd (cc h)
get_fields_canonical (suc fuel) (size ∷ rest) fields b h =
    let r = round-some size rest (get_fields fuel (drop size rest)) fields h in
    let rec = get_fields_canonical fuel (drop size rest) r.2 (drop-All size rest b.1) r.3 in
    rw (r.4) (
      cong_size size (take size rest) rest (spelled r.2) (length-take_le size rest r.0)
          (omega arith) (take-drop size rest ∙ ap (take size rest ++◌) rec.0),
      (r.1, rec.1),
    )

with_command-some :
    (c : ℕ) (o : Fields) (command : ℕ) (fields : List (List ℕ))
    → with_command c o ≡ some (command, fields)
    → (c ≡ command) × (o ≡ read_all fields)
with_command-some c out_of_fuel command fields h = absurd (cc h)
with_command-some c refused command fields h = absurd (cc h)
with_command-some c (read_all more) command fields h =
    let e = some-injective _ _ h in (ap (λ x. x.0) e, ap (λ x. read_all x.1) e)

-- What parse_rpc accepts is spelled canonically: in data that consist of bytes it has read the
-- command, the length of what follows, and of each field its length and its bytes, with no field
-- that holds a terminator and nothing after the last.
pub parse_rpc_canonical :
    (bytes : List ℕ) (command : ℕ) (fields : List (List ℕ))
    → All IsByte bytes
    → parse_rpc bytes ≡ some (command, fields)
    → (bytes ≡ command ∷ length (spelled fields) ∷ spelled fields) × All IsText fields
unfolding parse_rpc
parse_rpc_canonical [] command fields b h = absurd (cc h)
parse_rpc_canonical (c ∷ []) command fields b h = absurd (cc h)
parse_rpc_canonical (c ∷ n ∷ rest) command fields b h =
    let test = ltb (length (c ∷ n ∷ rest)) 2 || not (n + 2 == length (c ∷ n ∷ rest)) in
    let o = get_fields (length (c ∷ n ∷ rest)) rest in
    let g = guard_passed test (with_command c o) (command, fields) h in
    let w = with_command-some c o command fields g.1 in
    let r = get_fields_canonical (length (c ∷ n ∷ rest)) rest fields b.1.1 w.1 in
    let size : n ≡ length rest = ground (arith, g.0) in rw (w.0, size, r.0) (refl, r.1)
