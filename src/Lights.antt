-- ===== src/Lights.antt =====
-- lib/openathan-core/src/lights.cpp and include/openathan/lights.h: the saved light preference with
-- its record and update, the light's mode and its frames.
pub mod Record
pub mod Service
pub mod Mode
pub mod Frame
pub mod Schedule
use openathan.Base.{ℕ, Bool}

pub record LightSettings : Type 0 where
  pub enabled : Bool
  pub brightness_percent : ℕ

pub record SavedLights : Type 0 where
  pub revision : ℕ
  pub value : LightSettings
