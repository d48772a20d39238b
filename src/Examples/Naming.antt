-- ===== src/Examples/Naming.antt =====
-- The speaker's name.
use openathan.Base.{◌≡◌, refl, true, none, some, List, [], ◌∷◌, ℕ}
use openathan.Storage.{Preferences}
use openathan.SpeakerName.{SavedSpeakerName, normalize_speaker_name}

-- " Hé " and "Hé" in UTF-8.
abbrev padded : List ℕ
padded = 32 ∷ 72 ∷ 0xC3 ∷ 0xA9 ∷ 32 ∷ []

abbrev neat : List ℕ
neat = 72 ∷ 0xC3 ∷ 0xA9 ∷ []

-- A surrogate is refused, and so is an overlong form of a slash.
surrogate : normalize_speaker_name (0xED ∷ 0xA0 ∷ 0x80 ∷ []) ≡ none
unfolding normalize_speaker_name
surrogate = refl

overlong : normalize_speaker_name (0xE0 ∷ 0x80 ∷ 0xAF ∷ []) ≡ none
unfolding normalize_speaker_name
overlong = refl

abbrev unnamed : Preferences SavedSpeakerName
unnamed = record { saved = some (record { revision = 1; name = [] }); writable = true }
