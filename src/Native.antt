-- ===== src/Native.antt =====
-- server/native.h: what the platform layers report of a monitor's frames.
pub mod Elevation
use monidroid.Base.{ℕ, Option, Bool, true, false}

-- `FrameStatus`; the last three are negative.
pub data FrameStatus : Type 0 where
  frame_ready no_updates mode_changed monitor_off : FrameStatus
  error buffer_too_small not_available : FrameStatus

-- `MDSuccess`
unfoldable pub md_success : FrameStatus → Bool
md_success FrameStatus.error = false
md_success FrameStatus.buffer_too_small = false
md_success FrameStatus.not_available = false
md_success _ = true

-- `FrameMapInfo`; `pixels` is the pointer `data`, `none` for null.
pub record FrameMapInfo : Type 0 where
  pub pixels : Option ℕ
  pub width : ℕ
  pub height : ℕ
  pub stride : ℕ
