-- ===== src/TimeFormat.antt =====
-- lib/openathan-core/src/time_format.cpp and include/openathan/time_format.h: the saved clock
-- format, its record and its revision-checked update.
pub mod Record
pub mod Service
pub mod Clock
use openathan.Base.{ℕ}

pub record SavedTimeFormat : Type 0 where
  pub revision : ℕ
  pub hours : ℕ
