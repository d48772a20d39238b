-- ===== src/Device/Usb.antt =====
-- firmware/esphome/components/openathan_device/usb_upgrade.cpp: an upgrade over USB. The flash, the
-- hash library and the signature check of the descriptor are outside; what they answer to one call is
-- an `Answers`, and `image`, `request_record` and `boot_selected` are what they hold.
pub mod Steps
pub mod Selected
pub mod Ready
pub mod Quiet
use openathan.Base.{
  ℕ, zero, suc, ◌+◌, ◌-◌, ◌/◌, ◌%◌, ◌≡◌, ℤ, Bool, true, false, not, ◌&&◌, ◌||◌, Option, none, some,
  List, [], ◌∷◌, ◌++◌, length, get_or, ltb, leb, ◌==◌, list_eq, is_some, if◌then◌else◌,
}
use openathan.Bytes.{u32_mod}
use openathan.UsbUpgrade.{Chunk}
use openathan.Device.Release.{from_chars, newer_release}

pub record UpgradeRelease : Type 0 where
  pub version : List ℕ
  pub sha256 : List ℕ
  pub envelope : List ℕ
  pub bytes : ℕ

abbrev pub no_release : UpgradeRelease
no_release = record { version = []; sha256 = []; envelope = []; bytes = 0 }

-- `state_`, with the texts of the network upgrade as one.
pub data State : Type 0 where
  idle usb_descriptor usb_receiving usb_interrupted : State
  usb_selection_uncertain awaiting_power of_network : State

abbrev pub is_descriptor : State → Bool
is_descriptor usb_descriptor = true
is_descriptor _ = false

abbrev pub is_receiving : State → Bool
is_receiving usb_receiving = true
is_receiving _ = false

abbrev is_interrupted : State → Bool
is_interrupted usb_interrupted = true
is_interrupted _ = false

abbrev is_awaiting : State → Bool
is_awaiting awaiting_power = true
is_awaiting _ = false

-- The members, with the bytes that the hash has taken, and the three outside.
pub record Upgrade : Type 0 where
  pub state : State
  pub expected : List ℕ
  pub storage_ok : Bool
  pub confirmed : Bool
  pub active : Bool
  pub request : Bool
  pub token : ℕ
  pub last_ms : ℕ
  pub descriptor_bytes : ℕ
  pub descriptor : List ℕ
  pub handle : Bool
  pub hash_live : Bool
  pub hashed : List ℕ
  pub queued : UpgradeRelease
  pub received : ℕ
  pub staged : Bool
  pub image : List ℕ
  pub request_record : List ℕ × List ℕ × Bool
  pub boot_selected : Bool

pub data UsbSelection : Type 0 where
  unknown selected unselected rejected : UsbSelection

-- What the calls outside answer during one command: `safe` is `usb_safe_`, `described`
-- the version in the written image, and `boot_changed` whether the boot partition is the new one after the call that selects it.
pub record Answers : Type 0 where
  pub now : ℕ
  pub random : ℕ
  pub safe : Bool
  pub persisted : Bool
  pub cleared : Bool
  pub partition_fits : Bool
  pub begun : Bool
  pub hash_started : Bool
  pub hash_finished : Bool
  pub written : Bool
  pub hash_updated : Bool
  pub ended : Bool
  pub described : Option (List ℕ)
  pub boot_set : Bool
  pub boot_changed : Bool
  pub selection : UsbSelection

abbrev nonempty : List ℕ → Bool
nonempty xs = not (length xs == 0)

-- `persist_` of upgrade.cpp.
unfoldable pub persist : Bool → Upgrade → List ℕ → List ℕ → Bool × Upgrade
persist stored u queue expected =
    let usb = u.request && (nonempty queue || nonempty expected) in
    if not u.storage_ok
    then (false, u)
    else if not stored
    then (false, record u { storage_ok = false })
    else (true, record u { request_record = (queue, expected, usb) })

-- The members that every abort clears.
abbrev dropped : Upgrade → Upgrade
dropped u = record u {
  handle = false;
  hash_live = false;
  token = 0;
  descriptor = [];
  descriptor_bytes = 0;
  staged = false;
}

abbrev cleared : Upgrade → Upgrade
cleared u = record u { request = false; queued = no_release; received = 0; state = idle }

unfoldable pub usb_abort : Bool → Upgrade → Bool × Upgrade
unfolding persist
usb_abort stored u =
    let stop = dropped u in
    let kept = persist stored stop [] [] in
    if nonempty u.expected || is_awaiting u.state
    then (false, u)
    else if not u.request
    then (true, cleared stop)
    else if not kept.0
    then (false, kept.1)
    else (true, cleared kept.1)

pub data Command : Type 0 where
  begin abort verify finish other : Command

abbrev hex_digit : ℕ → ℕ
hex_digit n = if ltb n 10 then b'0' + n else b'a' + (n - 10)

abbrev hex_text : ℕ → ℕ → List ℕ
hex_text zero n = []
hex_text (suc digits) n = hex_text digits (n / 16) ++ hex_digit (n % 16) ∷ []

unfoldable pub token_text : ℕ → List ℕ
token_text token = hex_text 16 token

abbrev pub usb_busy : Upgrade → Bool
usb_busy u = not (u.token == 0) || u.request

-- A reply: the code, the members, and the texts.
abbrev pub Reply : Type 0
Reply = ℕ × Upgrade × List (List ℕ)

abbrev text_aborted : List ℕ
text_aborted = b'a' ∷ b'b' ∷ b'o' ∷ b'r' ∷ b't' ∷ b'e' ∷ b'd' ∷ []

abbrev pub text_interrupted : List ℕ
text_interrupted = b'i' ∷ b'n' ∷ b't' ∷ b'e' ∷ b'r' ∷ b'r' ∷ b'u' ∷ b'p' ∷ b't' ∷ b'e' ∷ b'd' ∷ []

abbrev text_accepted : List ℕ
text_accepted = b'a' ∷ b'c' ∷ b'c' ∷ b'e' ∷ b'p' ∷ b't' ∷ b'e' ∷ b'd' ∷ []

abbrev text_verified : List ℕ
text_verified = b'v' ∷ b'e' ∷ b'r' ∷ b'i' ∷ b'f' ∷ b'i' ∷ b'e' ∷ b'd' ∷ []

-- BEGIN with the size that its field names.
unfoldable pub begin_sized : Answers → Upgrade → Option ℕ → Reply
begin_sized a u none = (1, u, [])
begin_sized a u (some size) =
    let token = if a.random == 0 then 1 else a.random in
    if size == 0 || ltb 8192 size
    then (1, u, [])
    else if u.active || usb_busy u || nonempty u.queued.envelope || not a.safe
    then (255, u, [])
    else (
      0,
      record u {
        token = token;
        descriptor_bytes = size;
        descriptor = [];
        last_ms = a.now;
        received = 0;
        state = usb_descriptor;
      },
      token_text token ∷ [],
    )

-- ABORT of an interrupted request.
unfoldable pub abort_interrupted : Answers → Upgrade → Reply
unfolding usb_abort
abort_interrupted a u =
    let done = usb_abort a.cleared u in
    if not u.confirmed || not u.storage_ok || nonempty u.expected || not (is_interrupted u.state)
    then (255, u, [])
    else elim a.selection [
      | unselected ↦ if not done.0 then (255, done.1, []) else (0, done.1, text_aborted ∷ [])
      | selected ↦ (255, record u { state = awaiting_power }, [])
      | _ ↦ (255, record u { state = usb_selection_uncertain }, [])
    ]

-- VERIFY behind the descriptor.
unfoldable pub verify_release : (List ℕ → Bool) → Answers → Upgrade → Option UpgradeRelease → Reply
verify_release newer a u none = (1, (usb_abort a.cleared u).1, [])
verify_release newer a u (some release) =
    let asked : Upgrade = record u { request = true } in
    let kept = persist a.persisted asked release.envelope [] in
    let queued : Upgrade = record (kept.1) { queued = release } in
    let begun : Upgrade = record queued { handle = true; image = [] } in
    let hashing : Upgrade = record begun { hash_live = true; hashed = [] } in
    if not (newer release.version)
    then (1, (usb_abort a.cleared u).1, [])
    else if not a.safe
    then (255, (usb_abort a.cleared u).1, [])
    else if not kept.0
    then (255, (usb_abort a.cleared kept.1).1, [])
    else if not a.partition_fits || not a.begun
    then (255, (usb_abort a.cleared queued).1, [])
    else if not a.hash_started
    then (255, (usb_abort a.cleared hashing).1, [])
    else (
      0,
      record hashing { descriptor = []; state = usb_receiving },
      text_accepted ∷ release.version ∷ [],
    )

abbrev pub described_as : Option (List ℕ) → List ℕ → Bool
described_as none version = false
described_as (some found) version = list_eq version found

-- FINISH behind its first test: the hash, the image, and the handoff before the selection.
unfoldable pub finish_image : (List ℕ → List ℕ) → Answers → Upgrade → Reply
finish_image sha256 a u =
    let hashed : Upgrade = record u { hash_live = false } in
    let ended : Upgrade = record hashed { handle = false } in
    let kept = persist a.persisted ended u.queued.envelope u.queued.version in
    let handed : Upgrade = record (kept.1) { expected = u.queued.version; token = 0 } in
    let set : Upgrade = record handed { boot_selected = u.boot_selected || a.boot_changed } in
    if not a.hash_finished
    then (255, (usb_abort a.cleared u).1, [])
    else if not (list_eq (sha256 u.hashed) u.queued.sha256)
    then (1, (usb_abort a.cleared hashed).1, [])
    else if not a.ended
    then (1, (usb_abort a.cleared ended).1, [])
    else if not (described_as a.described u.queued.version)
    then (1, (usb_abort a.cleared ended).1, [])
    else if not kept.0
    then (255, kept.1, [])
    else if not a.boot_set
    then (255, record set { state = usb_selection_uncertain }, [])
    else (0, record set { state = awaiting_power }, text_verified ∷ u.queued.version ∷ [])

-- The commands that need the token.
unfoldable pub token_command :
    (List ℕ → Option UpgradeRelease)
    → (List ℕ → List ℕ)
    → List ℕ
    → Answers
    → Upgrade
    → Command
    → Reply
token_command signed sha256 current a u abort =
    let done = usb_abort a.cleared u in
    if not done.0 then (255, done.1, []) else (0, done.1, text_aborted ∷ [])
token_command signed sha256 current a u verify =
    if not (is_descriptor u.state) || not (length u.descriptor == u.descriptor_bytes)
    then (1, u, [])
    else verify_release (λ v. newer_release v current) a u (signed u.descriptor)
token_command signed sha256 current a u finish =
    if not (is_receiving u.state) || not (u.received == u.queued.bytes) || not a.safe
    then (255, u, [])
    else finish_image sha256 a u
token_command signed sha256 current a u begin = (2, u, [])
token_command signed sha256 current a u other = (2, u, [])

abbrev pub is_begin : Command → Bool
is_begin begin = true
is_begin _ = false

abbrev pub is_abort : Command → Bool
is_abort abort = true
is_abort _ = false

-- The texts of a call.
abbrev pub field_is : List (List ℕ) → List ℕ → Bool
field_is (field ∷ []) text = list_eq field text
field_is _ text = false

abbrev pub size_of : List (List ℕ) → Option (Option ℕ)
size_of (field ∷ []) = some (from_chars field)
size_of _ = none

unfoldable pub begin_command : Bool → Answers → Upgrade → Option (Option ℕ) → Reply
begin_command test_mode a u none = if test_mode then (2, u, []) else (1, u, [])
begin_command test_mode a u (some size) = if test_mode then (2, u, []) else begin_sized a u size

-- `enabled`, `test_mode` and `current` are the constants of the build.
unfoldable pub usb_command :
    Bool
    → Bool
    → List ℕ
    → (List ℕ → Option UpgradeRelease)
    → (List ℕ → List ℕ)
    → Answers
    → Upgrade
    → Command
    → List (List ℕ)
    → Reply
usb_command enabled test_mode current signed sha256 a u command fields =
    if not enabled
    then (2, u, [])
    else if is_begin command
    then begin_command test_mode a u (size_of fields)
    else if is_abort command && field_is fields text_interrupted && u.request && u.token == 0
    then abort_interrupted a u
    else if u.token == 0 || not (field_is fields (token_text u.token))
    then (1, u, [])
    else token_command signed sha256 current a (record u { last_ms = a.now }) command

-- The difference of two numbers of 32 bits.
abbrev pub sub_u32 : ℕ → ℕ → ℕ
sub_u32 a b = (a + u32_mod - b) % u32_mod

-- The two kinds of a chunk.
unfoldable pub descriptor_chunk : Answers → Upgrade → Chunk → Bool × Upgrade
descriptor_chunk a u chunk =
    if not (is_descriptor u.state)
      || not (chunk.offset == length u.descriptor)
      || ltb (sub_u32 u.descriptor_bytes (length u.descriptor)) (length chunk.bytes)
    then (false, u)
    else (true, record u { descriptor = u.descriptor ++ chunk.bytes; last_ms = a.now })

unfoldable pub image_chunk : Answers → Upgrade → Chunk → Bool × Upgrade
image_chunk a u chunk =
    let stored : Upgrade = record u { image = u.image ++ chunk.bytes } in
    let hashed : Upgrade = record stored { hashed = u.hashed ++ chunk.bytes } in
    if not (is_receiving u.state)
      || not (chunk.offset == u.received)
      || ltb (sub_u32 u.queued.bytes u.received) (length chunk.bytes)
      || not a.safe
    then (false, u)
    else if not a.written
    then (false, (usb_abort a.cleared u).1)
    else if not a.hash_updated
    then (false, (usb_abort a.cleared stored).1)
    else (
      true,
      record hashed { received = (u.received + length chunk.bytes) % u32_mod; last_ms = a.now },
    )

unfoldable pub usb_chunk : Bool → Answers → Upgrade → Chunk → Bool × Upgrade
usb_chunk enabled a u chunk =
    if not enabled || u.token == 0 || not (chunk.token == u.token)
    then (false, u)
    else if chunk.kind == 0
    then descriptor_chunk a u chunk
    else image_chunk a u chunk
