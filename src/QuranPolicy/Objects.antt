-- ===== src/QuranPolicy/Objects.antt =====
-- The objects that a stream gives.
use openathan.Base.{
  ℕ, ◌+◌, ◌-◌, ◌<◌, ◌≤◌, ◌≡◌, ◌⊎◌, inl, inr, refl, ap, true, false, not, List, [], ◌∷◌, ◌++◌,
  length, get_or, ltb, ◌==◌, if◌then◌else◌, if_both, Bool-cases, ==_iff, ◌∙◌, ◌||◌, length-append,
  All, arith,
}
use openathan.QuranPolicy.{QuranObjectStream, Fed, feed, feed_item, feed_between, feed_prefix}

-- The text of an object: it starts with its brace and ends with one, within the bound.
abbrev pub IsObject : List ℕ → Type 0
IsObject o = (get_or o 0 0 ≡ b'{') × (get_or o (length o - 1) 0 ≡ b'}') × (length o ≤ 16384)

-- An item in the making.
unfoldable pub Making : QuranObjectStream → Type 0
Making s =
    (s.depth ≡ 0) ⊎ ((get_or s.item 0 0 ≡ b'{') × (0 < length s.item) × (length s.item ≤ 16384))

abbrev Good : Fed → Type 0
Good r = Making r.1 × ((r.2 ≡ []) ⊎ IsObject r.2)

get_or-front : (xs ys : List ℕ) → 0 < length xs → get_or (xs ++ ys) 0 0 ≡ get_or xs 0 0
get_or-front [] ys h = absurd (omega arith)
get_or-front (x ∷ xs) ys h = refl

get_or-last : (xs : List ℕ) (c : ℕ) → get_or (xs ++ c ∷ []) (length xs) 0 ≡ c
get_or-last [] c = refl
get_or-last (x ∷ xs) c = get_or-last xs c

added-IsObject :
    (xs : List ℕ) (c : ℕ)
    → get_or xs 0 0 ≡ b'{'
    → 0 < length xs
    → length xs < 16384
    → c ≡ b'}'
    → IsObject (xs ++ c ∷ [])
added-IsObject xs c brace some_text short end =
    let long = length-append xs (c ∷ []) in
    let last : length (xs ++ c ∷ []) - 1 ≡ length xs = omega (arith, long) in
    (
      get_or-front xs (c ∷ []) some_text ∙ brace,
      ap (λ (i : ℕ). get_or (xs ++ c ∷ []) i 0) last ∙ get_or-last xs c ∙ end,
      omega (arith, long, short),
    )

Good-feed_item :
    (s : QuranObjectStream) (c : ℕ) → (s.depth == 0) ≡ false → Making s → Good (feed_item s c)
unfolding feed_item Making
Good-feed_item s c open_item h = ground (
  arith,
  h,
  open_item,
  length-append s.item (c ∷ []),
  get_or-front s.item (c ∷ []),
  added-IsObject s.item c,
)

Good-feed_between : (s : QuranObjectStream) (c : ℕ) → s.depth ≡ 0 → Good (feed_between s c)
unfolding feed_between Making
Good-feed_between s c h = ground (arith, h)

Good-feed_prefix : (s : QuranObjectStream) (c : ℕ) → Making s → Good (feed_prefix s c)
unfolding feed_prefix Making
Good-feed_prefix s c h = ground (arith, h)

counted : (s : QuranObjectStream) → Making s → Making (record s { bytes = s.bytes + 1 })
unfolding Making
counted s h = h

counted_failed :
    (s : QuranObjectStream) → Making s → Making (record s { bytes = s.bytes + 1; failed = true })
unfolding Making
counted_failed s h = h

if_depth :
    (s : QuranObjectStream) (c : ℕ)
    → Making s
    → Good (if not (s.depth == 0) then feed_item s c else feed_between s c)
if_depth s c h = elim (Bool-cases (s.depth == 0)) [
  | inl none_open ↦ rw none_open (Good-feed_between s c ((==_iff _ _).0 none_open))
  | inr open_item ↦ rw open_item (Good-feed_item s c open_item h)
]

Good-feed : (s : QuranObjectStream) (c : ℕ) → Making s → Good (feed s c)
unfolding feed
Good-feed s c h =
    let t : QuranObjectStream = record s { bytes = s.bytes + 1 } in
    if_both Good (ltb 1048576 (s.bytes + 1) || s.failed) (counted_failed s h, inl refl)
      (if_both Good (ltb s.prefix_pos (length s.prefix)) (Good-feed_prefix t c (counted s h))
        (if_depth t c (counted s h)))

-- A stream of characters, and the objects that it gave.
abbrev cons_nonempty : List ℕ → List (List ℕ) → List (List ℕ)
cons_nonempty [] os = os
cons_nonempty (x ∷ xs) os = (x ∷ xs) ∷ os

unfoldable pub feed_all : QuranObjectStream → List ℕ → QuranObjectStream × List (List ℕ)
feed_all s [] = (s, [])
feed_all s (c ∷ cs) =
    let r = feed s c in let rest = feed_all r.1 cs in (rest.0, cons_nonempty r.2 rest.1)

cons-All :
    (o : List ℕ) (os : List (List ℕ))
    → (o ≡ []) ⊎ IsObject o
    → All IsObject os
    → All IsObject (cons_nonempty o os)
cons-All [] os h k = k
cons-All (x ∷ xs) os (inl h) k = cc
cons-All (x ∷ xs) os (inr h) k = (h, k)

made :
    (s : QuranObjectStream) (cs : List ℕ)
    → Making s
    → Making (feed_all s cs).0 × All IsObject (feed_all s cs).1
unfolding feed_all
made s [] h = (h, _)
made s (c ∷ cs) h =
    let now = Good-feed s c h in
    let rest = made (feed s c).1 cs now.0 in
    (rest.0, cons-All (feed s c).2 (feed_all (feed s c).1 cs).1 now.1 rest.1)

-- Whatever characters are fed to a stream that is outside an object, each object that it gives
-- starts with an opening brace, ends with a closing one and has at most 16384 characters.
pub feed_all-IsObject :
    (s : QuranObjectStream) (cs : List ℕ) → s.depth ≡ 0 → All IsObject (feed_all s cs).1
unfolding Making
feed_all-IsObject s cs h = (made s cs (inl h)).1
