-- ===== src/Device/Release/Policy.antt =====
-- What the policy of releases promises.
use openathan.Base.{
  ℕ, ◌≡◌, refl, Bool, true, false, Option, none, some, List, [], ◌∷◌, ℤ, pos, ◌≤ℤ◌, ◌+ℤ◌, -ℤ_parts,
  +ℤ_parts, All, arith, sym, subst, ◌≢◌,
}
use openathan.Device.Release.{newer, release_version, newer_release, upgrade_window}

newer_trans : (a b c : Option (ℕ × ℕ × ℕ)) → newer a b ≡ true → newer b c ≡ true → newer a c ≡ true
newer_trans (some a) (some b) (some c) h k = ground arith
newer_trans none b c h k = cc
newer_trans (some a) none c h k = cc
newer_trans (some a) (some b) none h k = cc

newer_irreflexive : (a : Option (ℕ × ℕ × ℕ)) → newer a a ≡ false
newer_irreflexive none = refl
newer_irreflexive (some a) = ground arith

-- The releases of a device, the latest first, each of which replaced the one behind it.
abbrev pub Upgraded : List (List ℕ) → Type 0
Upgraded [] = Unit
Upgraded (v ∷ []) = Unit
Upgraded (v ∷ w ∷ vs) = (newer_release v w ≡ true) × Upgraded (w ∷ vs)

newer_release_trans :
    (u v w : List ℕ)
    → newer_release u v ≡ true
    → newer_release v w ≡ true
    → newer_release u w ≡ true
unfolding newer_release
newer_release_trans u v w h k =
    newer_trans (release_version u) (release_version v) (release_version w) h k

newer_release-other : (v w : List ℕ) → newer_release v w ≡ true → w ≢ v
unfolding newer_release
newer_release-other v w h same =
    let never = newer_irreflexive (release_version w) in
    let above_self : newer (release_version w) (release_version w) ≡ true =
      subst (λ (x : List ℕ). newer (release_version x) (release_version w) ≡ true) (sym same) h in
    cc (never, above_self)

abbrev Exceeds : List ℕ → List ℕ → Type 0
Exceeds v w = (newer_release v w ≡ true) × (w ≢ v)

chain-Exceeds :
    (u v : List ℕ) (vs : List (List ℕ))
    → newer_release u v ≡ true
    → Upgraded (v ∷ vs)
    → All (Exceeds u) (v ∷ vs)
chain-Exceeds u v [] h up = ((h, newer_release-other u v h), _)
chain-Exceeds u v (w ∷ vs) h up =
    ((h, newer_release-other u v h), chain-Exceeds u w vs (newer_release_trans u v w h up.0) up.1)

-- The latest release of a device is newer than each that it had before, so a chain of upgrades
-- never leads back to one of them.
pub newer_release_chain : (v : List ℕ) (vs : List (List ℕ)) → Upgraded (v ∷ vs) → All (Exceeds v) vs
newer_release_chain v [] up = _
newer_release_chain v (w ∷ vs) up = chain-Exceeds v w vs up.0 up.1

-- On an active device with a next event, the window is open only while nothing plays, the clock is
-- right, the scheduler is ready, and the event is fifteen minutes away at least.
pub upgrade_window_open :
    (playing clock ready : Bool) (now next : ℤ)
    → upgrade_window playing clock true ready now (some next) ≡ true
    → (playing ≡ false) × (clock ≡ true) × (ready ≡ true) × (now +ℤ pos 900 ≤ℤ next)
unfolding upgrade_window
upgrade_window_open playing clock ready now next h =
    ground (arith, -ℤ_parts next now, +ℤ_parts now (pos 900))
