-- ===== src/Examples/Preferring.antt =====
-- The preference services.
use openathan.Base.{true, false}
use openathan.Display.{SavedDisplay}
use openathan.TimeFormat.{SavedTimeFormat}
use openathan.Lights.{SavedLights}
use openathan.DuaPreference.{SavedDua}

abbrev dim : SavedDisplay
dim = record { revision = 258; brightness_percent = 40 }

abbrev day_clock : SavedTimeFormat
day_clock = record { revision = 7; hours = 12 }

abbrev dark : SavedLights
dark = record { revision = 300; value = record { enabled = false; brightness_percent = 9 } }

abbrev followed : SavedDua
followed = record { revision = 2; enabled = true }
