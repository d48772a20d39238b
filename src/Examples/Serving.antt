-- ===== src/Examples/Serving.antt =====
-- A join of a network, frames and calls of the serial line, releases, and an upgrade over USB.
use openathan.Base.{
  ℕ, ◌-◌, ◌*◌, ◌<◌, ◌≡◌, refl, sym, subst, Bool, true, false, Option, none, some, List, [], ◌∷◌,
  length, replicate, list_eq, list_eq→eq, pos, ◌≢◌, arith,
}
use openathan.Bytes.{u32_mod}
use openathan.Device.Wifi
use openathan.Device.Wifi.{WifiCredentials, valid_wifi}
use openathan.Device.Wifi.Attempt as Attempt
use openathan.Device.Protocol.{rpc, parse_rpc, frame, get_fields, out_of_fuel}
use openathan.Device.Protocol.Reading.{get_fields_enough, parse_rpc_canonical}
use openathan.Device.Protocol.Calls.{parse_rpc-rpc, spelled}
use openathan.Device.Protocol.Frames.{feed_all, feed_all-frame}
use openathan.Device.Release.{release_version, newer_release, part, parts}
use openathan.Device.Usb as Usb
use openathan.Device.Usb.Selected as Selected
use openathan.Device.Usb.Steps as Steps
use openathan.Device.Usb.Ready as Ready
use openathan.Device.Usb.Quiet as Quiet
use openathan.Scheduler.{no_fault}

-- "oa" with a password of eight letters.
abbrev home : WifiCredentials
home = record { ssid = b'o' ∷ b'a' ∷ []; password = replicate 8 b'p' }

-- The calls of a join, the latest first.
abbrev join : List Attempt.Call
join =
    Attempt.joined_call (b'o' ∷ b'a' ∷ [])
    ∷ Attempt.step_call 200 false []
    ∷ Attempt.begin_call home 100
    ∷ []

step-Rejoined_example :
    Attempt.Rejoined home 100 join
    × (true ≡ true)
    × (b'o' ∷ b'a' ∷ [] ≡ home.ssid)
    × (900 - 100 < 30000)
unfolding Attempt.after Attempt.apply Wifi.begin Wifi.joined Wifi.step valid_wifi list_eq
step-Rejoined_example = Attempt.step-Rejoined join 900 true (b'o' ∷ b'a' ∷ []) refl

abbrev texts : List (List ℕ)
texts = (b'o' ∷ b'a' ∷ []) ∷ [] ∷ replicate 8 b'p' ∷ []

given : rpc 1 texts ≢ []
unfolding rpc
given e = cc

parse_rpc-rpc_example : parse_rpc (rpc 1 texts) ≡ some (1, texts)
parse_rpc-rpc_example = parse_rpc-rpc 1 texts (refl, (refl, (refl, _))) given

-- A byte each tenth of a second.
abbrev tenths : ℕ → ℕ
tenths i = i * 100

feed_all-frame_example :
    ((feed_all tenths (record { bytes = []; last = 5000 }) (frame true 4 (1 ∷ 2 ∷ [])) 0).0.bytes
      ≡ [])
    × ((feed_all tenths (record { bytes = []; last = 5000 }) (frame true 4 (1 ∷ 2 ∷ [])) 0).1
        ≡ record { extension = true; type = 4; data_bytes = 1 ∷ 2 ∷ [] } ∷ [])
feed_all-frame_example =
    feed_all-frame tenths (λ i. (omega arith, omega arith)) true 4 (1 ∷ 2 ∷ []) 5000 (omega arith)

-- v1.9.0, v1.10.0 and v2.0.1.
abbrev v190 : List ℕ
v190 = b'v' ∷ b'1' ∷ b'.' ∷ b'9' ∷ b'.' ∷ b'0' ∷ []

abbrev v1100 : List ℕ
v1100 = b'v' ∷ b'1' ∷ b'.' ∷ b'1' ∷ b'0' ∷ b'.' ∷ b'0' ∷ []

abbrev v201 : List ℕ
v201 = b'v' ∷ b'2' ∷ b'.' ∷ b'0' ∷ b'.' ∷ b'1' ∷ []

-- A part with a leading zero is refused.
leading_zero : release_version (b'v' ∷ b'1' ∷ b'.' ∷ b'0' ∷ b'9' ∷ b'.' ∷ b'0' ∷ []) ≡ none
unfolding release_version parts part
leading_zero = refl

-- A release of four bytes, whose hash is its text.
abbrev release : Usb.UpgradeRelease
release = record { version = v1100; sha256 = 1 ∷ 2 ∷ 3 ∷ 4 ∷ []; envelope = b'e' ∷ []; bytes = 4 }

abbrev signed_for : Bool → Option Usb.UpgradeRelease
signed_for true = some release
signed_for false = none

abbrev signed : List ℕ → Option Usb.UpgradeRelease
signed e = signed_for (list_eq e (b'e' ∷ []))

abbrev Checked : List ℕ → Usb.UpgradeRelease → Type 0
Checked e r = (r.envelope ≡ e) × (0 < length r.version) × (r.bytes < u32_mod)

signed_for-Checked :
    (b : Bool) (e : List ℕ) (r : Usb.UpgradeRelease)
    → (b ≡ true → e ≡ b'e' ∷ [])
    → signed_for b ≡ some r
    → Checked e r
signed_for-Checked true e r text is =
    let same : release ≡ r = cc in
    subst (Checked e) same (sym (text refl), omega arith, omega arith)
signed_for-Checked false e r text is = cc

signed-Checks : Selected.Checks signed
signed-Checks e r is = signed_for-Checked (list_eq e (b'e' ∷ [])) e r (list_eq→eq e (b'e' ∷ [])) is

abbrev answers : Usb.Answers
answers = record {
  now = 7;
  random = 1;
  safe = true;
  persisted = true;
  cleared = true;
  partition_fits = true;
  begun = true;
  hash_started = true;
  hash_finished = true;
  written = true;
  hash_updated = true;
  ended = true;
  described = some v1100;
  boot_set = true;
  boot_changed = true;
  selection = Usb.unknown;
}

abbrev build : Selected.Build
build = record { enabled = true; test_mode = false; current = v190 }

abbrev fresh : Usb.Upgrade
fresh = record {
  state = Usb.idle;
  expected = [];
  storage_ok = true;
  confirmed = true;
  active = false;
  request = false;
  token = 0;
  last_ms = 0;
  descriptor_bytes = 0;
  descriptor = [];
  handle = false;
  hash_live = false;
  hashed = [];
  queued = Usb.no_release;
  received = 0;
  staged = false;
  image = [];
  request_record = ([], [], false);
  boot_selected = false;
}

abbrev token : List (List ℕ)
token = Usb.token_text 1 ∷ []

abbrev piece : ℕ → ℕ → List ℕ → Selected.Call
piece kind offset bytes =
    Selected.on_chunk answers (record { token = 1; kind = kind; offset = offset; bytes = bytes })

-- The descriptor, its check, the image in two chunks, and the end.
abbrev upgrade : List Selected.Call
upgrade =
    Selected.on_command answers Usb.begin ((b'1' ∷ []) ∷ [])
    ∷ piece 0 0 (b'e' ∷ [])
    ∷ Selected.on_command answers Usb.verify token
    ∷ piece 1 0 (1 ∷ 2 ∷ 3 ∷ [])
    ∷ piece 1 3 (4 ∷ [])
    ∷ Selected.on_command answers Usb.finish token
    ∷ []

run-IsVerified_example :
    Steps.IsVerified signed (λ xs. xs) (Selected.run signed (λ xs. xs) build fresh upgrade)
unfolding Selected.run Selected.apply Usb.usb_command Usb.begin_command Usb.begin_sized
    Usb.token_text Usb.token_command Usb.verify_release Usb.persist Usb.finish_image Usb.usb_chunk
    Usb.descriptor_chunk Usb.image_chunk newer_release release_version parts part list_eq
run-IsVerified_example =
    Selected.run-IsVerified signed (λ xs. xs) signed-Checks build fresh upgrade refl refl refl refl
      refl

-- A device with a right clock whose next event is half an hour away.
abbrev calm : Ready.Conditions
calm = record {
  updates_enabled = true;
  bootloader_ok = true;
  server_ready = true;
  failed = false;
  settings_healthy = true;
  storage_fault = false;
  upgrade_health = true;
  background_busy = false;
  playback_busy = false;
  fault = no_fault;
  clock_valid = true;
  activated = true;
  automatic_ready = true;
  utc = pos 1000;
  next = some (pos 2800);
}

-- The written partition is selected, and its image is of the queued version.
abbrev handed : Usb.Upgrade
handed = record fresh { queued = release; expected = v1100 }

abbrev partitions : Ready.Partitions
partitions = record {
  running = some 0;
  candidate = some 1;
  boot = some 1;
  described = some v1100;
  image_state = Ready.state_is Ready.usable;
}

-- Two fields, and a third that is cut short: refused, with any fuel.
abbrev cut_short : List ℕ
cut_short = 1 ∷ b'o' ∷ 0 ∷ 5 ∷ b'a' ∷ []

get_fields_enough_example : get_fields 6 (0 ∷ cut_short) ≢ out_of_fuel
get_fields_enough_example = get_fields_enough 6 (0 ∷ cut_short) (omega arith)

parse_rpc_canonical_example :
    1 ∷ 3 ∷ 2 ∷ b'o' ∷ b'a' ∷ []
    ≡ 1 ∷ length (spelled ((b'o' ∷ b'a' ∷ []) ∷ [])) ∷ spelled ((b'o' ∷ b'a' ∷ []) ∷ [])
unfolding parse_rpc
parse_rpc_canonical_example =
    (parse_rpc_canonical (1 ∷ 3 ∷ 2 ∷ b'o' ∷ b'a' ∷ []) 1 ((b'o' ∷ b'a' ∷ []) ∷ [])
      (omega arith, (omega arith, (omega arith, (omega arith, (omega arith, _))))) refl).0
