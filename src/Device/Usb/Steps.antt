-- ===== src/Device/Usb/Steps.antt =====
-- What each command and chunk of an upgrade over USB keeps, before a handoff is stored and after it.
use openathan.Base.{
  ℕ, ◌+◌, ◌%◌, ◌<◌, ◌≤◌, ◌≡◌, ◌⊎◌, inl, inr, refl, sym, ap, ◌∙◌, Bool, true, false, not, ◌||◌,
  Option, none, some, List, [], ◌++◌, length, ltb, ◌==◌, list_eq, list_eq→eq, length-append,
  if_both, if_passed, arith,
}
use openathan.Bytes.{u32_mod}
use openathan.UsbUpgrade.{Chunk}
use openathan.Device.Usb.{
  UpgradeRelease, State, described_as, usb_selection_uncertain, awaiting_power, Upgrade, Answers,
  Reply, usb_receiving, is_descriptor, is_receiving, persist, usb_abort, begin_sized,
  abort_interrupted, verify_release, finish_image, descriptor_chunk, image_chunk, sub_u32,
}

module _ (signed : List ℕ → Option UpgradeRelease) (sha256 : List ℕ → List ℕ) where
  -- The image is the one that the signed descriptor names, and the handoff is in the record.
  abbrev pub IsVerified : Upgrade → Type 0
  IsVerified u =
      (signed u.queued.envelope ≡ some u.queued)
      × (length u.image ≡ u.queued.bytes)
      × (sha256 u.image ≡ u.queued.sha256)
      × (u.request_record ≡ (u.queued.envelope, u.queued.version, true))

  abbrev pub Receives : Upgrade → Type 0
  Receives u =
      (u.hashed ≡ u.image)
      × (u.received ≡ length u.image)
      × (u.received ≤ u.queued.bytes)
      × (u.queued.bytes < u32_mod)
      × (u.request ≡ true)
      × (signed u.queued.envelope ≡ some u.queued)

  -- Before a handoff is stored, and after it.
  unfoldable pub Before : Upgrade → Type 0
  Before u =
      (u.boot_selected ≡ false)
      × (length u.expected ≡ 0)
      × ((is_descriptor u.state ≡ false) ⊎ (u.received ≡ 0))
      × (((is_receiving u.state ≡ false) ⊎ (u.token ≡ 0)) ⊎ Receives u)

  unfoldable pub Handed : Upgrade → Type 0
  Handed u =
      (u.request ≡ true)
      × (u.token ≡ 0)
      × (0 < length u.expected)
      × ((u.boot_selected ≡ false) ⊎ IsVerified u)

  -- What the commands before a handoff keep.
  pub Before-persist :
      (b : Bool) (u : Upgrade) (q e : List ℕ) → Before u → Before (persist b u q e).1
  unfolding persist Before
  Before-persist b u q e h = ground arith

  pub Before-usb_abort : (b : Bool) (u : Upgrade) → Before u → Before (usb_abort b u).1
  unfolding usb_abort persist Before
  Before-usb_abort b u h = ground arith

  pub Before-begin_sized :
      (a : Answers) (u : Upgrade) (size : Option ℕ) → Before u → Before (begin_sized a u size).1
  unfolding begin_sized Before
  Before-begin_sized a u none h = h
  Before-begin_sized a u (some size) h = ground arith

  pub Before-abort_interrupted :
      (a : Answers) (u : Upgrade) → Before u → Before (abort_interrupted a u).1
  unfolding abort_interrupted Before
  Before-abort_interrupted a u h = ground (arith, Before-usb_abort a.cleared u h)

  pub Before-descriptor_chunk :
      (a : Answers) (u : Upgrade) (c : Chunk) → Before u → Before (descriptor_chunk a u c).1
  unfolding descriptor_chunk Before
  Before-descriptor_chunk a u c h = ground arith

  pub descriptor_not_receiving : (s : State) → is_descriptor s ≡ true → is_receiving s ≡ false
  descriptor_not_receiving s h = ground arith

  pub persist-state : (b : Bool) (u : Upgrade) (q e : List ℕ) → (persist b u q e).1.state ≡ u.state
  unfolding persist
  persist-state b u q e = ground arith

  pub persist-request :
      (b : Bool) (u : Upgrade) (q e : List ℕ) → (persist b u q e).1.request ≡ u.request
  unfolding persist
  persist-request b u q e = ground arith

  -- Steps of VERIFY.
  abbrev asked : Upgrade → Upgrade
  asked u = record u { request = true }

  abbrev taken : Upgrade → UpgradeRelease → Upgrade
  taken u r = record u { queued = r }

  abbrev hashing : Upgrade → Upgrade
  hashing u = record u { handle = true; image = []; hash_live = true; hashed = [] }

  pub Before-asked : (u : Upgrade) → Before u → Before (asked u)
  unfolding Before
  Before-asked u h = ground arith

  pub Before-taken :
      (u : Upgrade) (r : UpgradeRelease)
      → is_descriptor u.state ≡ true
      → Before u
      → Before (taken u r)
  unfolding Before
  Before-taken u r d h = ground (arith, descriptor_not_receiving u.state d)

  pub Before-hashing : (u : Upgrade) → is_descriptor u.state ≡ true → Before u → Before (hashing u)
  unfolding Before
  Before-hashing u d h = ground (arith, descriptor_not_receiving u.state d)

  pub Before-receiving :
      (u : Upgrade) (r : UpgradeRelease)
      → is_descriptor u.state ≡ true
      → u.request ≡ true
      → r.bytes < u32_mod
      → signed r.envelope ≡ some r
      → Before u
      → Before (record (hashing (taken u r)) { descriptor = []; state = usb_receiving })
  unfolding Before
  Before-receiving u r d asked small is h = ground (arith, d, small, is)

  pub verified_cases :
      (newer : List ℕ → Bool) (a : Answers) (u : Upgrade) (o : Option UpgradeRelease)
      → Before u
      → is_descriptor u.state ≡ true
      → ((r : UpgradeRelease) → o ≡ some r → (signed r.envelope ≡ some r) × (r.bytes < u32_mod))
      → Before (verify_release newer a u o).1
  unfolding verify_release
  verified_cases newer a u none h here is = Before-usb_abort a.cleared u h
  verified_cases newer a u (some r) h here is =
      let kept = (persist a.persisted (asked u) r.envelope []).1 in
      let kept_before = Before-persist a.persisted (asked u) r.envelope [] (Before-asked u h) in
      let kept_here : is_descriptor kept.state ≡ true =
        ap is_descriptor (persist-state a.persisted (asked u) r.envelope []) ∙ here in
      let taken_before = Before-taken kept r kept_here kept_before in
      let P : Reply → Type 0 = λ x. Before x.1 in
      if_both P (not (newer r.version)) (Before-usb_abort a.cleared u h) (
        if_both P (not a.safe) (Before-usb_abort a.cleared u h) (
          if_both P (not (persist a.persisted (asked u) r.envelope []).0)
            (Before-usb_abort a.cleared kept kept_before)
            (if_both P (not a.partition_fits || not a.begun)
              (Before-usb_abort a.cleared (taken kept r) taken_before)
              (if_both P (not a.hash_started)
                (Before-usb_abort a.cleared (hashing (taken kept r))
                  (Before-hashing (taken kept r) kept_here taken_before))
                (Before-receiving kept r kept_here
                  (persist-request a.persisted (asked u) r.envelope []) (is r refl).1 (is r refl).0
                  kept_before)))))

  pub receiving_not_descriptor : (s : State) → is_receiving s ≡ true → is_descriptor s ≡ false
  receiving_not_descriptor s h = ground arith

  -- Steps of a chunk of the image.
  pub stored_abort :
      (b : Bool) (u : Upgrade) (image : List ℕ)
      → Before u
      → Before (usb_abort b (record u { image = image })).1
  unfolding usb_abort persist Before
  stored_abort b u image h = ground arith

  pub Before-stored :
      (a : Answers) (u : Upgrade) (c : Chunk)
      → (not (is_receiving u.state)
          || not (c.offset == u.received)
          || ltb (sub_u32 u.queued.bytes u.received) (length c.bytes)
          || not a.safe)
        ≡ false
      → Before u
      → Before (record u {
        image = u.image ++ c.bytes;
        hashed = u.hashed ++ c.bytes;
        received = (u.received + length c.bytes) % u32_mod;
        last_ms = a.now;
      })
  unfolding Before
  Before-stored a u c t h =
      ground (arith, t, length-append u.image c.bytes, receiving_not_descriptor u.state)

  pub Before-image_chunk :
      (a : Answers) (u : Upgrade) (c : Chunk) → Before u → Before (image_chunk a u c).1
  unfolding image_chunk
  Before-image_chunk a u c h =
      let P : Bool × Upgrade → Type 0 = λ x. Before x.1 in
      if_passed P
        (not (is_receiving u.state)
          || not (c.offset == u.received)
          || ltb (sub_u32 u.queued.bytes u.received) (length c.bytes)
          || not a.safe)
        h
        λ t. if_both P (not a.written) (Before-usb_abort a.cleared u h) (
          if_both P (not a.hash_updated) (stored_abort a.cleared u (u.image ++ c.bytes) h)
            (Before-stored a u c t h))

  -- Steps of FINISH.
  pub Before-Receives :
      (u : Upgrade) → is_receiving u.state ≡ true → 0 < u.token → Before u → Receives u
  unfolding Before
  Before-Receives u here token h = ground (arith, here)

  pub Before-hash_freed : (u : Upgrade) → Before u → Before (record u { hash_live = false })
  unfolding Before
  Before-hash_freed u h = h

  pub Before-ended :
      (u : Upgrade) → Before u → Before (record u { hash_live = false; handle = false })
  unfolding Before
  Before-ended u h = h

  pub persist_stored :
      (b : Bool) (u : Upgrade) (q e : List ℕ)
      → u.request ≡ true
      → 0 < length e
      → not (persist b u q e).0 ≡ false
      → (persist b u q e).1 ≡ record u { request_record = (q, e, true) }
  unfolding persist
  persist_stored b u q e asked some_text h = ground (arith, asked, some_text)

  pub same_hash :
      (u : Upgrade)
      → not (list_eq (sha256 u.hashed) u.queued.sha256) ≡ false
      → u.hashed ≡ u.image
      → sha256 u.image ≡ u.queued.sha256
  same_hash u h same =
      ap sha256 (sym same) ∙ list_eq→eq (sha256 u.hashed) u.queued.sha256 (ground (arith, h))

  -- Behind a handoff that was stored.
  pub Handed-stored :
      (u k : Upgrade) (state : State) (boot : Bool)
      → Receives u
      → u.received ≡ u.queued.bytes
      → 0 < length u.queued.version
      → sha256 u.image ≡ u.queued.sha256
      → k ≡ record u {
        hash_live = false;
        handle = false;
        request_record = (u.queued.envelope, u.queued.version, true);
      }
      → Handed
          (record k { expected = u.queued.version; token = 0; boot_selected = boot; state = state })
  unfolding Handed
  Handed-stored u k state boot r full named hash is =
      rw is (r.4, refl, named, inr (r.5, sym r.1 ∙ full, hash, refl))

  pub finish_cases :
      (a : Answers) (u : Upgrade)
      → Before u
      → Receives u
      → u.received ≡ u.queued.bytes
      → 0 < length u.queued.version
      → Before (finish_image sha256 a u).1 ⊎ Handed (finish_image sha256 a u).1
  unfolding finish_image
  finish_cases a u h r full named =
      let P : Reply → Type 0 = λ x. Before x.1 ⊎ Handed x.1 in
      let ended : Upgrade = record u { hash_live = false; handle = false } in
      let queue = u.queued.envelope in
      let name = u.queued.version in
      if_both P (not a.hash_finished) (inl (Before-usb_abort a.cleared u h)) (
        if_passed P (not (list_eq (sha256 u.hashed) u.queued.sha256))
          (inl (Before-usb_abort a.cleared _ (Before-hash_freed u h)))
          λ same.
            let hash = same_hash u same r.0 in
            if_both P (not a.ended) (inl (Before-usb_abort a.cleared ended (Before-ended u h))) (
              if_both P (not (described_as a.described name))
                (inl (Before-usb_abort a.cleared ended (Before-ended u h)))
                (if_passed P (not (persist a.persisted ended queue name).0)
                  (inl (Before-persist a.persisted ended queue name (Before-ended u h)))
                  λ stored.
                    let is = persist_stored a.persisted ended queue name r.4 named stored in
                    if_both P (not a.boot_set)
                      (inr (Handed-stored u _ usb_selection_uncertain _ r full named hash is))
                      (inr (Handed-stored u _ awaiting_power _ r full named hash is)))))
