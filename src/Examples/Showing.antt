-- ===== src/Examples/Showing.antt =====
-- A catalogue of recitations, and the connection that the display shows.
use openathan.Base.{
  pos, none, ◌-ℤ◌, ℕ, ◌≡◌, refl, true, false, Option, some, List, [], ◌∷◌, All, list_eq,
}
use openathan.Device.Wifi.{all}
use openathan.Scheduler.{no_fault, dhuhr}
use openathan.Presenter.{Inputs, present, status_page}
use openathan.Presenter.Upcoming.{Announced, present-Announced}
use openathan.Connection as Connection
use openathan.Connection.Cache as Cache
use openathan.Connection.Code as Code
use openathan.QuranPolicy as Quran
use openathan.QuranPolicy.Objects as Objects

-- {"k":[{"a":{}},{}]} with a blank.
abbrev catalogue : Quran.QuranObjectStream
catalogue = record {
  prefix = b'{' ∷ b'"' ∷ b'k' ∷ b'"' ∷ b':' ∷ b'[' ∷ [];
  item = [];
  prefix_pos = 0;
  bytes = 0;
  depth = 0;
  quoted = false;
  escaped = false;
  separator = false;
  comma = false;
  closed = false;
  finished = false;
  failed = false;
}

abbrev catalogue_text : List ℕ
catalogue_text =
    b'{' ∷ b'"' ∷ b'k' ∷ b'"' ∷ b':' ∷ b'[' ∷ b'{' ∷ b'"' ∷ b'a' ∷ b'"' ∷ b':' ∷ b'{' ∷ b'}' ∷ b'}'
    ∷ b',' ∷ b' ' ∷ b'{' ∷ b'}' ∷ b']' ∷ b'}' ∷ []

catalogue_objects :
    ((Objects.feed_all catalogue catalogue_text).1
      ≡ (b'{' ∷ b'"' ∷ b'a' ∷ b'"' ∷ b':' ∷ b'{' ∷ b'}' ∷ b'}' ∷ []) ∷ (b'{' ∷ b'}' ∷ []) ∷ [])
    × (Quran.complete (Objects.feed_all catalogue catalogue_text).0 ≡ true)
unfolding Objects.feed_all Quran.feed Quran.feed_item Quran.feed_between Quran.feed_prefix
catalogue_objects = (refl, refl)

feed_all-IsObject_example : All Objects.IsObject (Objects.feed_all catalogue catalogue_text).1
feed_all-IsObject_example = Objects.feed_all-IsObject catalogue catalogue_text refl

-- "oa.local" at 10.0.0.7, and an encoder that returns the text.
abbrev host : List ℕ
host = b'o' ∷ b'a' ∷ b'.' ∷ b'l' ∷ b'o' ∷ b'c' ∷ b'a' ∷ b'l' ∷ []

abbrev station : Connection.ConnectionInfo
station = record {
  hostname = host;
  ipv4 = b'1' ∷ b'0' ∷ b'.' ∷ b'0' ∷ b'.' ∷ b'0' ∷ b'.' ∷ b'7' ∷ [];
  connected = true;
  playback_busy = false;
  setup_active = false;
  setup_connecting = false;
  setup_error = false;
  setup_ssid = [];
  setup_ipv4 = [];
}

abbrev as_text : List ℕ → Option (List ℕ)
as_text payload = some payload

connection_frame-code_example :
    (true ≡ true)
    × (all Connection.host_char host ≡ true)
    × (Connection.valid_ipv4 station.ipv4 ≡ true)
    × (as_text (Connection.url_payload host)
        ≡ some (Connection.connection_frame as_text station).qr)
unfolding Connection.connection_frame Connection.station_frame Connection.encode_qr
    Connection.valid_ipv4 list_eq
connection_frame-code_example = Code.connection_frame-code as_text station refl refl refl

abbrev no_cache : Connection.ConnectionCache
no_cache = record { last = station; frame = Code.flagged as_text station; valid = false }

read_all-connection_frame_example :
    Cache.read_all as_text no_cache (station ∷ record station { connected = false } ∷ [])
    ≡ Connection.connection_frame as_text station
      ∷ Connection.connection_frame as_text (record station { connected = false })
      ∷ []
read_all-connection_frame_example =
    Cache.read_all-connection_frame as_text no_cache
      (station ∷ record station { connected = false } ∷ []) refl

-- Noon is announced at eleven, on a round display.
abbrev noon_inputs : Inputs
noon_inputs = record {
  status = record {
    clock_ready = true;
    automatic = true;
    playing = false;
    next = none;
    skip = none;
    fault = no_fault;
    conflicts = [];
  };
  setup_complete = true;
  storage_fault = false;
  clock_valid = true;
  wifi_connected = true;
  prayers_enabled = false;
  local_time = b'1' ∷ b'1' ∷ b':' ∷ b'0' ∷ b'0' ∷ [];
  next_time = b'1' ∷ b'2' ∷ b':' ∷ b'0' ∷ b'0' ∷ [];
  hours = 12;
  stop_button = true;
  round = true;
  visual_next = some (record {
    key = record { day = pos 19_782; prayer = dhuhr };
    utc = pos 7200;
    enabled = false;
    shared_with = none;
  });
  utc = pos 3600;
  quran = false;
  connection = none;
  page = status_page;
  page_hint = false;
  dua = false;
  dua_pending = false;
}

present-Announced_example : Announced noon_inputs
unfolding present
present-Announced_example = present-Announced noon_inputs refl

noon_countdown : (present noon_inputs).countdown ≡ b'I' ∷ b'n' ∷ b' ' ∷ b'1' ∷ b'h' ∷ b'r' ∷ []
unfolding present ◌-ℤ◌
noon_countdown = refl
