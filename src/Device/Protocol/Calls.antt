-- ===== src/Device/Protocol/Calls.antt =====
-- `parse_rpc` undoes `rpc`.
use mathlib.Core.List.{append_assoc, append-nil}
use openathan.Base.{
  ℕ, zero, suc, ◌+◌, ◌-◌, ◌%◌, ◌≤◌, ◌≡◌, refl, ap, ◌∙◌, sym, subst, false, ◌||◌, some, List, [],
  ◌∷◌, ◌++◌, length, drop, get_or, All, ltb, length-append, take-append, drop-append, arith,
  guard_passed, Option-cases, inl, inr, ◌≢◌,
}
use openathan.Device.Wifi.{contains}
use openathan.Device.Protocol.{put_fields, with_size, rpc, get_fields, parse_rpc, read_all}

-- What the loop of `rpc` writes.
abbrev pub spelled : List (List ℕ) → List ℕ
spelled [] = []
spelled (field ∷ fields) = length field % 256 ∷ (field ++ spelled fields)

-- A field that fits, without a terminator.
abbrev pub IsField : List ℕ → Type 0
IsField field = (length field ≤ 251) × (contains 0 field ≡ false)

-- A field without a terminator.
abbrev pub IsText : List ℕ → Type 0
IsText field = contains 0 field ≡ false

room : (a b : ℕ) → (ltb 251 a || ltb 255 (b + 1 + a)) ≡ false → (a ≤ 251) × (b + suc a ≤ 255)
room a b h = ground arith

put_fields-some :
    (out : List ℕ) (fields : List (List ℕ)) (r : List ℕ)
    → length out ≤ 255
    → All IsText fields
    → put_fields out fields ≡ some r
    → (r ≡ out ++ spelled fields) × (length r ≤ 255) × All IsField fields
put_fields-some out [] r h t e =
    let same : r ≡ out = cc in (same ∙ sym (append-nil out), rw same h, _)
put_fields-some out (field ∷ fields) r h t e =
    let guard =
      guard_passed (ltb 251 (length field) || ltb 255 (length out + 1 + length field))
        (put_fields (out ++ (length field % 256 ∷ field)) fields) r e in
    let fits = room (length field) (length out) guard.0 in
    let rest =
      put_fields-some (out ++ (length field % 256 ∷ field)) fields r
        (omega (arith, length-append out (length field % 256 ∷ field))) t.1 guard.1 in
    (
      rest.0 ∙ append_assoc out (length field % 256 ∷ field) (spelled fields),
      rest.1,
      ((fits.0, t.0), rest.2),
    )

byte_of : (n : ℕ) → n ≤ 255 → n % 256 ≡ n
byte_of n h = omega arith

get_field :
    (fuel : ℕ) (size : ℕ) (rest : List ℕ) (field : List ℕ) (more : List ℕ) (fields : List (List ℕ))
    → size ≡ length field
    → rest ≡ field ++ more
    → contains 0 field ≡ false
    → get_fields fuel more ≡ read_all fields
    → get_fields (suc fuel) (size ∷ rest) ≡ read_all (field ∷ fields)
get_field fuel size rest field more fields s r t rec =
    rw
      (
        s,
        r,
        take-append (length field) field more refl,
        drop-append (length field) field more refl,
        t,
        rec,
      )
      (ground (arith, length-append field more))

pub get_fields_nil : (fuel : ℕ) → get_fields fuel [] ≡ read_all []
get_fields_nil zero = refl
get_fields_nil (suc fuel) = refl

get_fields-spelled :
    (fuel : ℕ) (fields : List (List ℕ))
    → length (spelled fields) ≤ fuel
    → All IsField fields
    → get_fields fuel (spelled fields) ≡ read_all fields
get_fields-spelled fuel [] h ok = get_fields_nil fuel
get_fields-spelled zero (field ∷ fields) h ok = absurd (omega arith)
get_fields-spelled (suc fuel) (field ∷ fields) h ok =
    get_field fuel _ _ field (spelled fields) fields
      (byte_of (length field) (omega (arith, ok.0.0))) refl ok.0.1
      (get_fields-spelled fuel fields (omega (arith, length-append field (spelled fields))) ok.1)

sized : (n : ℕ) → suc (suc n) ≤ 255 → (suc (suc n) - 2) % 256 + 2 ≡ suc (suc n)
sized n h = omega arith

parse_rpc_parts :
    (bytes : List ℕ) (fields : List (List ℕ))
    → 2 ≤ length bytes
    → get_or bytes 1 0 + 2 ≡ length bytes
    → get_fields (length bytes) (drop 2 bytes) ≡ read_all fields
    → parse_rpc bytes ≡ some (get_or bytes 0 0, fields)
unfolding parse_rpc
parse_rpc_parts bytes fields long size rest = rw rest (ground (arith, long, size))

-- A call whose fields have no terminator in them is read back from its bytes unchanged, where `rpc`
-- does not refuse it.
pub parse_rpc-rpc :
    (command : ℕ) (fields : List (List ℕ))
    → All IsText fields
    → rpc command fields ≢ []
    → parse_rpc (rpc command fields) ≡ some (command, fields)
unfolding rpc
parse_rpc-rpc command fields t given = elim (Option-cases (put_fields (command ∷ 0 ∷ []) fields)) [
  | inl e ↦ absurd (given (ap with_size e))
  | inr (r, e) ↦
      let facts = put_fields-some (command ∷ 0 ∷ []) fields r (omega arith) t e in
      rw (e, facts.0)
        (parse_rpc_parts _ fields (omega arith)
          (sized _ (subst (λ (x : List ℕ). length x ≤ 255) facts.0 facts.1))
          (get_fields-spelled (suc (suc (length (spelled fields)))) fields (omega arith) facts.2))
]
