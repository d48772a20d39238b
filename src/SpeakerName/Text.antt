-- ===== src/SpeakerName/Text.antt =====
-- Normalised names.
use openathan.Base.{
  ℕ, ◌≤◌, ◌≡◌, refl, ap, ◌∙◌, sym, Bool, false, Option, none, some, List, [], ◌∷◌, length, ltb,
  if◌then◌else◌, arith, Bool-cases, inl, inr,
}
use openathan.SpeakerName.{
  space, trim_front, trim_back, cons_trimmed, scan, scan_start, normalize_speaker_name,
}

cons_trimmed_again :
    (c : ℕ) (r : List ℕ) → trim_back r ≡ r → trim_back (cons_trimmed c r) ≡ cons_trimmed c r
unfolding trim_back
cons_trimmed_again c [] h = elim (Bool-cases (space c)) [
  | inl e ↦ ground (arith, e)
  | inr e ↦ ground (arith, e)
]
cons_trimmed_again c (d ∷ ds) h = ap (cons_trimmed c) h

trim_back_again : (s : List ℕ) → trim_back (trim_back s) ≡ trim_back s
unfolding trim_back
trim_back_again [] = refl
trim_back_again (c ∷ cs) = cons_trimmed_again c (trim_back cs) (trim_back_again cs)

-- Text without a space at its front.
abbrev starts_spaced : List ℕ → Bool
starts_spaced [] = false
starts_spaced (c ∷ cs) = space c

trim_front_starts : (s : List ℕ) → starts_spaced (trim_front s) ≡ false
unfolding trim_front
trim_front_starts [] = refl
trim_front_starts (c ∷ cs) = ground (arith, trim_front_starts cs)

trim_front_unspaced : (s : List ℕ) → starts_spaced s ≡ false → trim_front s ≡ s
unfolding trim_front
trim_front_unspaced [] h = refl
trim_front_unspaced (c ∷ cs) h = ground (arith, h)

cons_trimmed_starts :
    (c : ℕ) (r : List ℕ) → space c ≡ false → starts_spaced (cons_trimmed c r) ≡ false
cons_trimmed_starts c [] h = ground (arith, h)
cons_trimmed_starts c (d ∷ ds) h = h

trim_back_starts : (s : List ℕ) → starts_spaced s ≡ false → starts_spaced (trim_back s) ≡ false
unfolding trim_back
trim_back_starts [] h = refl
trim_back_starts (c ∷ cs) h = cons_trimmed_starts c (trim_back cs) h

-- Trimmed text has no space at either end, so trimming it again changes nothing.
trimmed_again :
    (s : List ℕ) → trim_back (trim_front (trim_back (trim_front s))) ≡ trim_back (trim_front s)
trimmed_again s =
    ap trim_back (trim_front_unspaced _ (trim_back_starts _ (trim_front_starts s)))
    ∙ trim_back_again (trim_front s)

abbrev trim : List ℕ → List ℕ
trim s = trim_back (trim_front s)

abbrev verdict : List ℕ → Option (List ℕ)
verdict text =
    if ltb 128 (length text) then none else if scan scan_start text then some text else none

verdict_same : (text name : List ℕ) → verdict text ≡ some name → text ≡ name
verdict_same text name h = ground (arith, h)

verdict_length : (text name : List ℕ) → verdict text ≡ some name → length name ≤ 128
verdict_length text name h =
    ground (arith, ap (λ (s : List ℕ). length s) (verdict_same text name h))

pub length-normalize_speaker_name :
    (input name : List ℕ) → normalize_speaker_name input ≡ some name → length name ≤ 128
unfolding normalize_speaker_name
length-normalize_speaker_name input name h = verdict_length (trim input) name h

-- A name that normalisation returns is a normal one: normalising it again gives it back.
pub normalize_speaker_name_again :
    (input name : List ℕ)
    → normalize_speaker_name input ≡ some name
    → normalize_speaker_name name ≡ some name
unfolding normalize_speaker_name
normalize_speaker_name_again input name h =
    ap verdict (ap trim (sym (verdict_same (trim input) name h)) ∙ trimmed_again input) ∙ h
