-- ===== src/DuaMedia/Valid.antt =====
-- What `validate_dua_bank` accepts.
use openathan.Base.{
  guards_passed, ℕ, suc, ◌+◌, ◌≤◌, ◌<◌, subst, drop, ◌≡◌, refl, Bool, true, false, ◌&&◌, none, some,
  List, [], ◌∷◌, arith, take, list_eq, ◌==◌,
}
use openathan.Bytes.{read_u32}
use openathan.AudioImage.{HashMatches, slice}
use openathan.DuaMedia.{
  DuaBank, Verify, IsBank, dua_bank_erased, dua_bank_recognized, all_erased, validate_dua_bank,
  dua_bank_size, header_refused, body_refused, dua_commit,
}

header_facts :
    (hash : HashMatches) (bank : List ℕ) (index commit version generation : ℕ)
    → header_refused hash bank index commit version generation ≡ false
    → (index ≤ 1)
      × (dua_bank_recognized bank ≡ true)
      × (commit ≡ dua_commit)
      × (version ≡ 1)
      × (0 < generation)
      × (hash (take 4060 bank) (slice bank 4060 32) ≡ true)
unfolding header_refused
header_facts hash bank index commit version generation h = ground arith

body_facts :
    (hash : HashMatches) (verify : Verify) (bank digest : List ℕ) (length envelope_size : ℕ)
    → body_refused hash verify bank digest length envelope_size ≡ false
    → (0 < length)
      × (4096 + length ≤ dua_bank_size)
      × (64 + envelope_size ≤ 4060)
      × (verify (drop 64 bank) envelope_size length digest ≡ true)
      × (hash (take length (drop 4096 bank)) digest ≡ true)
unfolding body_refused
body_facts hash verify bank digest length envelope_size h = ground arith

-- The description of an accepted bank is what the bank holds at its fixed places: generation,
-- length, size of the envelope and digest in the header, the envelope from byte 64, the payload
-- from byte 4096. The payload is not empty and ends inside the bank, the envelope ends inside the
-- part of the header that the header's digest covers, and the bank is committed, of version one,
-- signed and intact.
pub validate_dua_bank-IsBank :
    (hash : HashMatches) (verify : Verify) (bank : List ℕ) (index : ℕ) (b : DuaBank)
    → validate_dua_bank hash verify (some bank) index ≡ some b
    → IsBank hash verify bank b
unfolding validate_dua_bank
validate_dua_bank-IsBank hash verify bank index b h =
    let facts = guards_passed _ _ _ b h in
    let head = header_facts hash bank index _ _ _ facts.0 in
    let body = body_facts hash verify bank _ _ _ facts.1 in
    subst (IsBank hash verify bank) facts.2 (record {
      index_valid = head.0;
      generation_at = refl;
      bytes_at = refl;
      envelope_size_at = refl;
      digest_at = refl;
      envelope_at = refl;
      payload_at = refl;
      generation_set = head.4;
      payload_inside = body.1;
      payload_filled = body.0;
      envelope_inside = body.2;
      signed = body.3;
      intact = body.4;
      header_intact = head.5;
      versioned = head.3;
      committed = head.2;
    })

first_erased : (n b : ℕ) (bank : List ℕ) → all_erased (take (suc n) (b ∷ bank)) ≡ true → b ≡ 0xff
unfolding all_erased
first_erased n b bank h = ground arith

differs : (b : ℕ) (same : Bool) → b ≡ 0xff → (b == 79 && same) ≡ false
differs b same h = ground arith

not_recognized : (bank : List ℕ) → dua_bank_erased bank ≡ true → dua_bank_recognized bank ≡ false
unfolding dua_bank_recognized dua_bank_erased list_eq
not_recognized [] h = refl
not_recognized (b ∷ bank) h = differs b _ (first_erased 262_143 b bank h)

refused_unrecognized :
    (hash : HashMatches) (bank : List ℕ) (index commit version generation : ℕ)
    → dua_bank_recognized bank ≡ false
    → header_refused hash bank index commit version generation ≡ true
unfolding header_refused
refused_unrecognized hash bank index commit version generation h = ground arith

-- An erased bank is never accepted.
pub validate_dua_bank_erased :
    (hash : HashMatches) (verify : Verify) (bank : List ℕ) (index : ℕ)
    → dua_bank_erased bank ≡ true
    → validate_dua_bank hash verify (some bank) index ≡ none
unfolding validate_dua_bank
validate_dua_bank_erased hash verify bank index h =
    rw
      (refused_unrecognized hash bank index (read_u32 bank 4092) (read_u32 bank 20)
        (read_u32 bank 8) (not_recognized bank h))
      refl
