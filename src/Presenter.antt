-- ===== src/Presenter.antt =====
-- firmware/esphome/components/openathan_display/presenter.h: what the status display shows. An array
-- of characters is its text up to the terminator, a list of bytes.
pub mod Upcoming
use openathan.Base.{
  ℕ, zero, suc, ◌+◌, ◌-◌, ◌*◌, ◌/◌, ◌%◌, ℤ, pos, pos_part, ◌-ℤ◌, Bool, true, false, not, ◌&&◌, ◌||◌,
  Option, none, some, List, [], ◌∷◌, ◌++◌, length, take, drop, get_or, ltb, leb, ltb_ℤ, leb_ℤ, ◌==◌,
  if◌then◌else◌,
}
use openathan.Scheduler.{Prayer, fajr, dhuhr, asr, maghrib, isha, Event, EventKey, Fault}
use openathan.Scheduler.Machine.{SchedulerStatus}
use openathan.Scheduler.Consume.{matches}
use openathan.TimeFormat.Clock.{format_clock}
use openathan.Lights.Mode.{LightMode, prayer_proximity}
use openathan.Connection.{ConnectionFrame}

pub data Page : Type 0 where
  status_page qr_page address_page : Page

-- `Inputs`.
pub record Inputs : Type 0 where
  pub status : SchedulerStatus
  pub setup_complete : Bool
  pub storage_fault : Bool
  pub clock_valid : Bool
  pub wifi_connected : Bool
  pub prayers_enabled : Bool
  pub local_time : List ℕ
  pub next_time : List ℕ
  pub hours : ℕ
  pub stop_button : Bool
  pub round : Bool
  pub visual_next : Option Event
  pub utc : ℤ
  pub quran : Bool
  pub connection : Option ConnectionFrame
  pub page : Page
  pub page_hint : Bool
  pub dua : Bool
  pub dua_pending : Bool

-- `Frame`; `connection` is none where the source leaves it as it is initialised.
pub record ScreenFrame : Type 0 where
  pub clock : List ℕ
  pub meridiem : List ℕ
  pub heading : List ℕ
  pub main : List ℕ
  pub detail : List ℕ
  pub footer : List ℕ
  pub countdown : List ℕ
  pub proximity : LightMode
  pub main_scale : ℕ
  pub error : Bool
  pub upcoming : Bool
  pub page : Page
  pub connection : Option ConnectionFrame

abbrev blank_frame : ScreenFrame
blank_frame = record {
  clock = [];
  meridiem = [];
  heading = [];
  main = [];
  detail = [];
  footer = [];
  countdown = [];
  proximity = LightMode.off;
  main_scale = 2;
  error = false;
  upcoming = false;
  page = status_page;
  connection = none;
}

-- `text`, into an array of `n` characters.
unfoldable pub text : ℕ → List ℕ → List ℕ
text n value = take (n - 1) value

unfoldable pub valid_time : List ℕ → Bool
valid_time value =
    length value == 5
    && get_or value 2 0 == b':'
    && leb b'0' (get_or value 0 0)
    && leb (get_or value 0 0) b'2'
    && leb b'0' (get_or value 1 0)
    && leb (get_or value 1 0) b'9'
    && (not (get_or value 0 0 == b'2') || leb (get_or value 1 0) b'3')
    && leb b'0' (get_or value 3 0)
    && leb (get_or value 3 0) b'5'
    && leb b'0' (get_or value 4 0)
    && leb (get_or value 4 0) b'9'

-- "%lld" of a number below 10 ^ fuel.
abbrev decimal : ℕ → ℕ → List ℕ
decimal zero n = []
decimal (suc fuel) n =
    let front = decimal fuel (n / 10) in
    if ltb n 10 then (b'0' + n) ∷ [] else front ++ (b'0' + n % 10) ∷ []

-- The result of `snprintf` into sixteen characters, or nothing where it does not fit.
abbrev fitted : List ℕ → List ℕ
fitted written = if leb 16 (length written) then [] else written

-- A number of 64 bits has at most twenty digits.
unfoldable pub format_countdown : ℤ → List ℕ
format_countdown seconds =
    let s : ℕ = pos_part seconds in
    let minutes : ℕ = s / 60 + (if s % 60 == 0 then 0 else 1) in
    let hours = minutes / 60 in
    let remainder = minutes % 60 in
    if leb_ℤ seconds (pos 0)
    then []
    else if ltb_ℤ seconds (pos 60)
    then (b'I' ∷ b'n' ∷ b' ' ∷ b'<' ∷ b'1' ∷ b'm' ∷ b'i' ∷ b'n' ∷ [])
    else if hours == 0
    then fitted ((b'I' ∷ b'n' ∷ b' ' ∷ []) ++ (decimal 20 minutes ++ (b'm' ∷ b'i' ∷ b'n' ∷ [])))
    else if remainder == 0
    then fitted ((b'I' ∷ b'n' ∷ b' ' ∷ []) ++ (decimal 20 hours ++ (b'h' ∷ b'r' ∷ [])))
    else fitted (
        (b'I' ∷ b'n' ∷ b' ' ∷ [])
        ++ (decimal 20 hours
            ++ ((b'h' ∷ b'r' ∷ b' ' ∷ []) ++ (decimal 20 remainder ++ (b'm' ∷ b'i' ∷ b'n' ∷ [])))))

unfoldable pub prayer_name : Prayer → List ℕ
prayer_name fajr = (b'F' ∷ b'a' ∷ b'j' ∷ b'r' ∷ [])
prayer_name dhuhr = (b'D' ∷ b'h' ∷ b'u' ∷ b'h' ∷ b'r' ∷ [])
prayer_name asr = (b'A' ∷ b's' ∷ b'r' ∷ [])
prayer_name maghrib = (b'M' ∷ b'a' ∷ b'g' ∷ b'h' ∷ b'r' ∷ b'i' ∷ b'b' ∷ [])
prayer_name isha = (b'I' ∷ b's' ∷ b'h' ∷ b'a' ∷ [])

abbrev pub next_of : Inputs → Option Event
next_of i = if i.round then i.visual_next else i.status.next

-- The condition on the next event for a frame that announces it.
abbrev pub announces : Inputs → Event → Bool
announces i e = (not i.round || ltb_ℤ i.utc e.utc) && valid_time i.next_time

-- The text before the first blank.
abbrev before_blank : List ℕ → List ℕ
before_blank [] = []
before_blank (c ∷ cs) = let rest = before_blank cs in if c == b' ' then [] else c ∷ rest

abbrev will_be_skipped : Option EventKey → Event → Bool
will_be_skipped none e = false
will_be_skipped (some key) e = matches e key

abbrev pub has_fault : Fault → Bool
has_fault Fault.no_fault = false
has_fault _ = true

abbrev text_of_fault : Fault → List ℕ
text_of_fault Fault.storage = (b'S' ∷ b't' ∷ b'o' ∷ b'r' ∷ b'a' ∷ b'g' ∷ b'e' ∷ [])
text_of_fault Fault.audio_unavailable = (b'A' ∷ b'u' ∷ b'd' ∷ b'i' ∷ b'o' ∷ [])
text_of_fault Fault.playback_rejected = (b'A' ∷ b'u' ∷ b'd' ∷ b'i' ∷ b'o' ∷ [])
text_of_fault _ = (b'S' ∷ b'c' ∷ b'h' ∷ b'e' ∷ b'd' ∷ b'u' ∷ b'l' ∷ b'e' ∷ [])

-- A frame with the heading, the main text and the detail.
abbrev titled : ScreenFrame → List ℕ → List ℕ → List ℕ → ScreenFrame
titled f heading main detail = record f {
  heading = text 9 heading;
  main = text 9 main;
  detail = text 16 detail;
}

-- `present` where a prayer is announced.
unfoldable pub announce : Inputs → ScreenFrame → Event → ScreenFrame
unfolding text format_clock format_countdown prayer_name matches
announce i f e =
    let time = format_clock i.next_time i.hours in
    let state =
      if will_be_skipped i.status.skip e
      then (b'W' ∷ b'i' ∷ b'l' ∷ b'l' ∷ b' ' ∷ b'b' ∷ b'e' ∷ b' ' ∷ b's' ∷ b'k' ∷ b'i' ∷ b'p' ∷ b'p'
          ∷ b'e' ∷ b'd' ∷ [])
      else if i.round && not e.enabled
      then (b'M' ∷ b'u' ∷ b't' ∷ b'e' ∷ b'd' ∷ [])
      else if i.status.automatic
      then (b'N' ∷ b'e' ∷ b'x' ∷ b't' ∷ b' ' ∷ b'A' ∷ b't' ∷ b'h' ∷ b'a' ∷ b'n' ∷ [])
      else (b'N' ∷ b'o' ∷ b't' ∷ b' ' ∷ b'r' ∷ b'e' ∷ b'a' ∷ b'd' ∷ b'y' ∷ b' ' ∷ b'y' ∷ b'e' ∷ b't'
          ∷ []) in
    record (titled f (prayer_name e.key.prayer) (before_blank time) state) {
      upcoming = true;
      main_scale = 3;
      meridiem = if i.hours == 12 then text 3 (drop (length time - 2) time) else f.meridiem;
      countdown = if i.round then format_countdown (e.utc -ℤ i.utc) else f.countdown;
    }

abbrev nothing_next : ScreenFrame → ScreenFrame
nothing_next f =
    titled f (b'A' ∷ b't' ∷ b'h' ∷ b'a' ∷ b'n' ∷ [])
      (b'W' ∷ b'a' ∷ b'i' ∷ b't' ∷ b'i' ∷ b'n' ∷ b'g' ∷ [])
      (b'N' ∷ b'o' ∷ b' ' ∷ b't' ∷ b'i' ∷ b'm' ∷ b'e' ∷ b' ' ∷ b's' ∷ b'e' ∷ b't' ∷ [])

-- The last two branches of `present`.
unfoldable pub announce_next : Inputs → ScreenFrame → Option Event → ScreenFrame
unfolding announce valid_time text
announce_next i f none = nothing_next f
announce_next i f (some e) = if announces i e then announce i f e else nothing_next f

-- The branches of `present`.
unfoldable pub body : Inputs → ScreenFrame → ScreenFrame
unfolding announce_next text
body i f =
    if i.storage_fault || has_fault i.status.fault
    then record (titled f (b'E' ∷ b'r' ∷ b'r' ∷ b'o' ∷ b'r' ∷ [])
        (if i.storage_fault
          then (b'S' ∷ b't' ∷ b'o' ∷ b'r' ∷ b'a' ∷ b'g' ∷ b'e' ∷ [])
          else text_of_fault i.status.fault)
        (b'U' ∷ b's' ∷ b'e' ∷ b' ' ∷ b'd' ∷ b'e' ∷ b'v' ∷ b'i' ∷ b'c' ∷ b'e' ∷ b' ' ∷ b'p' ∷ b'a'
          ∷ b'g' ∷ b'e' ∷ [])) { error = true }
    else if not i.setup_complete
    then titled f (b'S' ∷ b'e' ∷ b't' ∷ b'u' ∷ b'p' ∷ [])
        (b'N' ∷ b'e' ∷ b'e' ∷ b'd' ∷ b'e' ∷ b'd' ∷ [])
        (b'U' ∷ b's' ∷ b'e' ∷ b' ' ∷ b'p' ∷ b'h' ∷ b'o' ∷ b'n' ∷ b'e' ∷ b' ' ∷ b's' ∷ b'e' ∷ b't'
          ∷ b'u' ∷ b'p' ∷ [])
    else if i.status.playing || i.dua_pending
    then titled f
        (if i.dua || i.dua_pending
          then (b'D' ∷ b'u' ∷ b'a' ∷ [])
          else if i.quran
          then (b'Q' ∷ b'u' ∷ b'r' ∷ b'a' ∷ b'n' ∷ [])
          else (b'A' ∷ b't' ∷ b'h' ∷ b'a' ∷ b'n' ∷ []))
        (if i.dua_pending
          then (b'S' ∷ b't' ∷ b'a' ∷ b'r' ∷ b't' ∷ b'i' ∷ b'n' ∷ b'g' ∷ [])
          else (b'P' ∷ b'l' ∷ b'a' ∷ b'y' ∷ b'i' ∷ b'n' ∷ b'g' ∷ []))
        (if i.stop_button
          then (b'B' ∷ b'u' ∷ b't' ∷ b't' ∷ b'o' ∷ b'n' ∷ b' ' ∷ b't' ∷ b'o' ∷ b' ' ∷ b's' ∷ b't'
              ∷ b'o' ∷ b'p' ∷ [])
          else (b'U' ∷ b's' ∷ b'e' ∷ b' ' ∷ b'p' ∷ b'h' ∷ b'o' ∷ b'n' ∷ b'e' ∷ []))
    else if not i.clock_valid
    then titled f (b'T' ∷ b'i' ∷ b'm' ∷ b'e' ∷ [])
        (b'W' ∷ b'a' ∷ b'i' ∷ b't' ∷ b'i' ∷ b'n' ∷ b'g' ∷ [])
        (if i.wifi_connected
          then (b'S' ∷ b'y' ∷ b'n' ∷ b'c' ∷ b'i' ∷ b'n' ∷ b'g' ∷ b' ' ∷ b'c' ∷ b'l' ∷ b'o' ∷ b'c'
              ∷ b'k' ∷ [])
          else (b'C' ∷ b'o' ∷ b'n' ∷ b'n' ∷ b'e' ∷ b'c' ∷ b't' ∷ b' ' ∷ b'W' ∷ b'i' ∷ b'-' ∷ b'F'
              ∷ b'i' ∷ []))
    else if not i.prayers_enabled && not i.round
    then titled f (b'A' ∷ b't' ∷ b'h' ∷ b'a' ∷ b'n' ∷ []) (b'O' ∷ b'f' ∷ b'f' ∷ []) (
        b'A' ∷ b'l' ∷ b'l' ∷ b' ' ∷ b'p' ∷ b'r' ∷ b'a' ∷ b'y' ∷ b'e' ∷ b'r' ∷ b's' ∷ b' ' ∷ b'o'
        ∷ b'f' ∷ b'f' ∷ [])
    else announce_next i f (next_of i)

-- The proximity of a round display.
unfoldable pub proximity_of : Inputs → Option Event → LightMode
unfolding prayer_proximity valid_time
proximity_of i none = LightMode.off
proximity_of i (some e) =
    if i.round
      && i.setup_complete
      && not i.storage_fault
      && i.clock_valid
      && ltb_ℤ i.utc e.utc
      && valid_time i.next_time
    then prayer_proximity (e.utc -ℤ i.utc)
    else LightMode.off

-- What stands before the branches.
unfoldable pub opening : Inputs → ScreenFrame
unfolding text format_clock proximity_of
opening i =
    let time = format_clock (if i.clock_valid then i.local_time else []) i.hours in
    record blank_frame {
      clock = if length time == 0 then text 9 (b'-' ∷ b'-' ∷ b':' ∷ b'-' ∷ b'-' ∷ []) else time;
      footer =
          if i.wifi_connected
          then []
          else text 16 (b'O' ∷ b'f' ∷ b'f' ∷ b'l' ∷ b'i' ∷ b'n' ∷ b'e' ∷ []);
      proximity = proximity_of i (next_of i);
    }

abbrev is_status : Page → Bool
is_status status_page = true
is_status _ = false

-- What stands after the branches.
unfoldable pub connect : Inputs → ScreenFrame → Option ConnectionFrame → ScreenFrame
unfolding text
connect i f none = f
connect i f (some c) =
    if c.setup_active
    then record f { page = i.page; connection = some c; proximity = LightMode.off }
    else if not (is_status i.page)
    then record f { page = i.page; connection = some c }
    else if i.page_hint && c.available && c.connected && not i.status.playing && not i.dua_pending
    then record f {
      footer = text 16 (
          b'P' ∷ b'r' ∷ b'e' ∷ b's' ∷ b's' ∷ b' ' ∷ b'f' ∷ b'o' ∷ b'r' ∷ b' ' ∷ b'p' ∷ b'a' ∷ b'g'
          ∷ b'e' ∷ []);
    }
    else f

unfoldable pub present : Inputs → ScreenFrame
unfolding opening body connect
present i = connect i (body i (opening i)) i.connection
