-- ===== src/DuaPreference.antt =====
-- `SavedDua` and `DuaPreferences` of lib/openathan-core/src/dua.cpp and include/openathan/dua.h: the
-- saved choice whether a du'a follows, with its record and its revision-checked update.
pub mod Record
pub mod Service
use openathan.Base.{ℕ, Bool}

pub record SavedDua : Type 0 where
  pub revision : ℕ
  pub enabled : Bool
