-- ===== src/Lib.antt =====
-- OpenAthan: the core of a prayer clock, as definitions and theorems.
--
-- The program is the C++ library lib/openathan-core. A scheduler plays an Athan at each prayer time
-- at most once, also across restarts and power losses; preference services keep small records in
-- flash; a sequence follows an Athan with a du'a; validators read media and upgrade data. Platform
-- code (firmware/esphome/components) implements the interfaces that the library asks for: stores over
-- the flash library NVS, and services that join a network, talk over a serial line and upgrade.
--
-- Files, and the source each is about (in lib/openathan-core/src and include/openathan):
--   Base, Bytes            shared lists, integers, words of bytes and the CRC-32 of the records
--   Calendar               the civil dates of scheduler.cpp, from std::chrono's calendar
--   Double                 the doubles of the settings as their 64 bits
--   Storage                LoadResult and the store classes; the laws of a revisioned service
--   Scheduler              scheduler.h and scheduler.cpp: Rebuild is Scheduler::rebuild, Timetable
--                          about the events that it makes, Consume the
--                          marks of tick and skip_next, Machine the operations; System puts them
--                          into a device that ticks, restarts and loses power
--   StateRecord            scheduler_state.cpp
--   Display, TimeFormat, Lights, DuaPreference
--                          display.cpp, time_format.cpp, lights.cpp, dua.cpp: Record has encode and
--                          decode, Service has begin and update; Lights also has the light's Mode,
--                          its Frame and its Schedule; TimeFormat/Clock is format_clock
--   Settings               settings.cpp: validity, Record with encode_settings and decode_settings,
--                          Service with SettingsService, Settled with the outcomes of its update
--   SpeakerName            speaker_name.cpp: the text, the record and the service
--   PrayerCalculator       prayer_calculator.cpp, and DayCalculator::calculate
--   Playback, DuaSequence  playback.h; DuaSequence of dua.h and dua.cpp
--   AudioImage, DuaMedia, UsbUpgrade
--                          audio_image.h, dua_media.h, usb_upgrade.h
--   and in firmware/esphome/components/openathan
--   Adapter                openathan.h and openathan.cpp: the component that composes all the above.
--                          Output drives lights and display, Control passes time and requests on,
--                          Change saves, Start is setup, Steps has all calls as one type; the other
--                          files are about runs of calls
--   Nvs                    nvs_settings_store.cpp and nvs_state_store.cpp: load and save of every
--                          store, Stores with what each keeps, Services with the stores below the
--                          preference services; Setup is setup_store.cpp
--   and in firmware/esphome/components/openathan_device
--   Device/Wifi            wifi_attempt.h, and the tests of credentials of protocol.cpp
--   Device/Protocol        protocol.cpp: frames (Frames), the calls in them (Calls) and what is
--                          accepted as a call (Reading)
--   Device/Release         upgrade_policy.h
--   Device/Credentials     credential_store.cpp
--   Device/Usb             usb_upgrade.cpp, with persist_ of upgrade.cpp; Ready is usb_safe_ and
--                          usb_selection_; Quiet says what a call changes while usb_safe_ says no
--   and in firmware/esphome/components/openathan_audio
--   QuranPolicy            quran_policy.h
--   and in firmware/esphome/components/openathan_display
--   Connection             connection.h: the frame (Code says what its QR code is) and its Cache
--   Presenter              presenter.h: the texts of the status display
--   and in firmware/esphome/components/waveshare_box_rtc
--   Rtc                    rtc.cpp: the clock chip behind restore_ and save_; Interrupted is about a
--                          save that stops anywhere
--   Examples               tests, and each theorem at a concrete input
--
-- How the parts meet: the scheduler is given a store of DurableState, a Playback (on a device, the
-- sequence that wraps the backend) and a DayCalculator; each preference service is given a store of
-- its own values. These are parameters here too. The component Adapter has the scheduler, the
-- services and the sequence as members, and its stores share one medium. A store is a load and a save
-- on a medium; IsDurable says that a value is found again after a save that returned true, which the store interface
-- demands in its comment; IsAtomic says that a failed save leaves the old value, the new one or an
-- error. What compares digests, verifies signatures or checks a candidate schedule in the core library
-- is a function without hypotheses.
--
-- Conventions: a member function is a function from the object's record, and returns the record with
-- the answer. A signed integer is a ℤ, since the source keeps clear of the bounds of its 64-bit
-- times; unsigned words wrap around by an explicit remainder. An enum that a record's byte is cast to
-- is that number. A pointer to an out-parameter is a result, absent where the source leaves it.
-- std::sort on equal times keeps the order, which the source leaves open. All loops but that of
-- parse_rpc and the digits of a countdown are structural.
--
-- adhan-cpp, a third-party library, is a parameter of the calculator without hypotheses. NVS is a
-- parameter of the stores, with the hypothesis that a blob that was set and committed is found again.
-- Of ESPHome's time Adapter takes the validity of an epoch and its local date as parameters without
-- hypotheses, and an instant for every part of a call that looks at the clocks; what two looks in one
-- such part would give is taken to be the same. Adapter begins with setup: before it, scheduler_ and
-- settings_service_ are null and the calls return at once. The bus of the clock chip is a parameter of
-- Rtc, with the hypothesis that a register keeps its value through reads and through writes of other
-- registers, and that a failed write leaves the old value or the new one. ESPHome's conversion of an
-- epoch to a time is a parameter of it, with the hypothesis, for the reading back of a time alone, that
-- the epoch of that time is converted to it.
-- Of an upgrade, what the flash, the hash library and the application answer to a call are inputs of
-- the call; the signature check is a function with the hypothesis that an accepted release carries its
-- envelope, has a version and a size of 32 bits, which descriptor_ tests. ESPHome's serial port gives
-- bytes with their times. parse_rpc is on fuel, the length of its data, of which each round takes one
-- byte at least, and running out of fuel is a result of its own; the digits of a countdown are on fuel twenty, the digits of 64 bits.
--
-- The encoder of QR codes, a third-party library, is a parameter of Connection without hypotheses.
--
-- Left out: constant names for printing; logging, format_local, preview and the JSON of the settings in
-- the adapter; the HTTP services, the network upgrade, the du'a download and the Quran stream of
-- openathan_device; the audio pipeline, the rest of the display and the boards, which drive ESPHome and
-- the hardware.
pub mod Base
pub mod Bytes
pub mod Rtc
pub mod Storage
pub mod Display
pub mod TimeFormat
pub mod Double
pub mod Calendar
pub mod Playback
pub mod Scheduler
mod Examples
pub mod StateRecord
pub mod DuaSequence
pub mod Lights
pub mod DuaPreference
pub mod Adapter
pub mod AudioImage
pub mod UsbUpgrade
pub mod DuaMedia
pub mod Settings
pub mod SpeakerName
pub mod PrayerCalculator
pub mod Presenter
pub mod Nvs
pub mod Device
pub mod QuranPolicy
pub mod Connection
