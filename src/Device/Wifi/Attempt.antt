-- ===== src/Device/Wifi/Attempt.antt =====
-- What the calls before a `CONNECTED` were.
use openathan.Base.{
  ℕ, ◌-◌, ◌<◌, ◌≤◌, ◌≡◌, ◌||◌, inl, inr, refl, Bool, true, false, Bool-cases, ◌==◌, list_eq,
  list_eq→eq, ltb, leb, List, [], ◌∷◌, arith,
}
use openathan.Device.Wifi.{
  WifiCredentials, WifiAttempt, connected, valid_wifi, new_attempt, no_credentials, begin, joined,
  step, finish,
}

pub data Call : Type 0 where
  begin_call : WifiCredentials → ℕ → Call
  joined_call : List ℕ → Call
  step_call : ℕ → Bool → List ℕ → Call
  finish_call : Call

unfoldable pub apply : WifiAttempt → Call → WifiAttempt
unfolding begin joined step finish
apply a (begin_call c now) = (begin a c now).1
apply a (joined_call ssid) = joined a ssid
apply a (step_call now is_connected ssid) = (step a now is_connected ssid).1
apply a finish_call = finish a

-- The calls, the latest first.
unfoldable pub after : List Call → WifiAttempt
unfolding apply
after [] = new_attempt
after (x ∷ xs) = apply (after xs) x

-- Every call but `finish`.
abbrev goes_on : Call → Bool
goes_on finish_call = false
goes_on _ = true

-- The attempt for `c` started at `t`, with valid credentials, and was not finished since.
pub data Began (c : WifiCredentials) (t : ℕ) : List Call → Type 0 where
  began : {xs : List Call} → valid_wifi c.ssid c.password ≡ true → Began c t (begin_call c t ∷ xs)
  began_before : {x : Call} {xs : List Call} → goes_on x ≡ true → Began c t xs → Began c t (x ∷ xs)

-- Since then, the old connection was seen down within thirty seconds.
pub data Dropped (c : WifiCredentials) (t : ℕ) : List Call → Type 0 where
  dropped :
      {now : ℕ} {ssid : List ℕ} {xs : List Call}
      → t ≤ now
      → now - t < 30000
      → Began c t xs
      → Dropped c t (step_call now false ssid ∷ xs)
  dropped_before :
      {x : Call} {xs : List Call} → goes_on x ≡ true → Dropped c t xs → Dropped c t (x ∷ xs)

-- And since then, the network of `c` was joined.
pub data Rejoined (c : WifiCredentials) (t : ℕ) : List Call → Type 0 where
  rejoined : {xs : List Call} → Dropped c t xs → Rejoined c t (joined_call c.ssid ∷ xs)
  rejoined_before :
      {x : Call} {xs : List Call} → goes_on x ≡ true → Rejoined c t xs → Rejoined c t (x ∷ xs)

abbrev attempt : WifiCredentials → ℕ → ℕ → Bool → WifiAttempt
attempt c t phase has_joined = record {
  candidate = c;
  started = t;
  phase = phase;
  has_joined = has_joined;
}

-- What the members say of the calls.
data Tracks : List Call → WifiAttempt → Type 0 where
  idle : {xs : List Call} (c : WifiCredentials) (t : ℕ) → Tracks xs (attempt c t 0 false)
  waiting :
      {xs : List Call} (c : WifiCredentials) (t : ℕ)
      → Began c t xs
      → Tracks xs (attempt c t 1 false)
  down :
      {xs : List Call} (c : WifiCredentials) (t : ℕ)
      → Dropped c t xs
      → Tracks xs (attempt c t 2 false)
  up :
      {xs : List Call} (c : WifiCredentials) (t : ℕ)
      → Rejoined c t xs
      → Tracks xs (attempt c t 2 true)

-- Call by call.
begin-Tracks :
    (xs : List Call) (a : WifiAttempt) (c : WifiCredentials) (now : ℕ)
    → Tracks xs a
    → Tracks (begin_call c now ∷ xs) (begin a c now).1
unfolding begin
begin-Tracks xs a c now (idle d t) = elim (Bool-cases (valid_wifi c.ssid c.password)) [
  | inl ok ↦ rw ok (waiting c now (began ok))
  | inr no_good ↦ rw no_good (idle d t)
]
begin-Tracks xs a c now (waiting d t b) = waiting d t (began_before refl b)
begin-Tracks xs a c now (down d t b) = down d t (dropped_before refl b)
begin-Tracks xs a c now (up d t b) = up d t (rejoined_before refl b)

joined-Tracks :
    (xs : List Call) (a : WifiAttempt) (ssid : List ℕ)
    → Tracks xs a
    → Tracks (joined_call ssid ∷ xs) (joined a ssid)
unfolding joined
joined-Tracks xs a ssid (idle d t) = idle d t
joined-Tracks xs a ssid (waiting d t b) = waiting d t (began_before refl b)
joined-Tracks xs a ssid (down d t b) = elim (Bool-cases (list_eq ssid d.ssid)) [
  | inl same ↦ rw (same, list_eq→eq ssid d.ssid same) (up d t (rejoined b))
  | inr other ↦ rw other (down d t (dropped_before refl b))
]
joined-Tracks xs a ssid (up d t b) = elim (Bool-cases (list_eq ssid d.ssid)) [
  | inl same ↦ rw same (up d t (rejoined_before refl b))
  | inr other ↦ rw other (up d t (rejoined_before refl b))
]

in_time : (now t : ℕ) → (ltb now t || leb 30000 (now - t)) ≡ false → (t ≤ now) × (now - t < 30000)
in_time now t h = ground arith

step_keeps :
    (a : WifiAttempt) (now : ℕ) (is_connected : Bool) (ssid : List ℕ)
    → (a.phase == 1) ≡ false
    → (step a now is_connected ssid).1 ≡ a
unfolding step
step_keeps a now is_connected ssid h = ground arith

step_waits : (a : WifiAttempt) (now : ℕ) (ssid : List ℕ) → (step a now true ssid).1 ≡ a
unfolding step
step_waits a now ssid = ground arith

step-Tracks :
    (xs : List Call) (a : WifiAttempt) (now : ℕ) (is_connected : Bool) (ssid : List ℕ)
    → Tracks xs a
    → Tracks (step_call now is_connected ssid ∷ xs) (step a now is_connected ssid).1
unfolding step
step-Tracks xs a now is_connected ssid (idle d t) = idle d t
step-Tracks xs a now true ssid (waiting d t b) =
    rw (step_waits (attempt d t 1 false) now ssid) (waiting d t (began_before refl b))
step-Tracks xs a now false ssid (waiting d t b) =
    elim (Bool-cases (ltb now t || leb 30000 (now - t))) [
      | inl late ↦ rw late (waiting d t (began_before refl b))
      | inr soon ↦ rw soon (down d t (dropped (in_time now t soon).0 (in_time now t soon).1 b))
    ]
step-Tracks xs a now is_connected ssid (down d t b) =
    rw (step_keeps (attempt d t 2 false) now is_connected ssid refl)
      (down d t (dropped_before refl b))
step-Tracks xs a now is_connected ssid (up d t b) =
    rw (step_keeps (attempt d t 2 true) now is_connected ssid refl)
      (up d t (rejoined_before refl b))

finish-Tracks :
    (xs : List Call) (a : WifiAttempt) → Tracks xs a → Tracks (finish_call ∷ xs) (finish a)
unfolding finish
finish-Tracks xs a (idle d t) = idle _ t
finish-Tracks xs a (waiting d t b) = idle _ t
finish-Tracks xs a (down d t b) = idle _ t
finish-Tracks xs a (up d t b) = idle _ t

after-Tracks : (xs : List Call) → Tracks xs (after xs)
unfolding after apply
after-Tracks [] = idle no_credentials 0
after-Tracks (begin_call c now ∷ xs) = begin-Tracks xs (after xs) c now (after-Tracks xs)
after-Tracks (joined_call ssid ∷ xs) = joined-Tracks xs (after xs) ssid (after-Tracks xs)
after-Tracks (step_call now b ssid ∷ xs) = step-Tracks xs (after xs) now b ssid (after-Tracks xs)
after-Tracks (finish_call ∷ xs) = finish-Tracks xs (after xs) (after-Tracks xs)

Tracks-connected :
    (xs : List Call) (a : WifiAttempt) (now : ℕ) (is_connected : Bool) (ssid : List ℕ)
    → Tracks xs a
    → (step a now is_connected ssid).0 ≡ connected
    → Rejoined a.candidate a.started xs
      × (is_connected ≡ true)
      × (ssid ≡ a.candidate.ssid)
      × (now - a.started < 30000)
unfolding step
Tracks-connected xs a now is_connected ssid (idle d t) h = ground arith
Tracks-connected xs a now is_connected ssid (waiting d t b) h = ground arith
Tracks-connected xs a now is_connected ssid (down d t b) h = ground arith
Tracks-connected xs a now is_connected ssid (up d t b) h = ground (arith, b, list_eq→eq ssid d.ssid)

-- `CONNECTED` authorises new credentials only after the old connection was seen down and their
-- network was joined, in that order and since the attempt with these valid credentials began,
-- while the device is connected to that network, and within thirty seconds of the beginning.
pub step-Rejoined :
    (xs : List Call) (now : ℕ) (is_connected : Bool) (ssid : List ℕ)
    → (step (after xs) now is_connected ssid).0 ≡ connected
    → Rejoined (after xs).candidate (after xs).started xs
      × (is_connected ≡ true)
      × (ssid ≡ (after xs).candidate.ssid)
      × (now - (after xs).started < 30000)
step-Rejoined xs now is_connected ssid h =
    Tracks-connected xs (after xs) now is_connected ssid (after-Tracks xs) h
