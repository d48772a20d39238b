-- ===== src/Display.antt =====
-- lib/openathan-core/src/display.cpp and include/openathan/display.h: the saved display brightness,
-- its record and its revision-checked update. Brightness and revision are native numbers; the
-- wrap of `revision + 1` on 32 bits is written out.
pub mod Record
pub mod Service
use openathan.Base.{ℕ}

pub record SavedDisplay : Type 0 where
  pub revision : ℕ
  pub brightness_percent : ℕ

abbrev pub default_display_brightness_percent : ℕ
default_display_brightness_percent = 50
