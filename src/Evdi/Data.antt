-- ===== src/Evdi/Data.antt =====
-- server/linux/evdi.cpp: the state of a monitor and of the adapter.
use monidroid.Base.{ℕ, List, Bool}
use monidroid.Edid.Data.{MonitorMode}

-- The fields of `frameBufferInfo` that are set; `buffer` is an address.
pub record BufferInfo : Type 0 where
  pub buffer : ℕ
  pub width : ℕ
  pub height : ℕ
  pub stride : ℕ

-- The events written to the input device.
pub data Report : Type 0 where
  rel_x rel_y rel_wheel : ℕ → Report
  btn_left btn_right btn_middle : Bool → Report
  syn : Report

-- `struct MonitorContext`. Of `frameBuffer` the model keeps the address and the capacity in pixels;
-- `reports` has the newest first.
pub record MonitorContext : Type 0 where
  pub dev_index : ℕ
  pub preferred : MonitorMode
  pub current : MonitorMode
  pub enabled : Bool
  pub model_name : List ℕ
  pub frame_buffer : ℕ
  pub capacity : ℕ
  pub frame_buffer_info : BufferInfo
  pub rects_count : ℕ
  pub reports : List Report

-- The DPMS modes of the kernel.
pub data DpmsMode : Type 0 where
  on standby suspend off : DpmsMode

-- What `evdi_handle_events` calls the handlers with: a DPMS mode; a mode, with the address that an
-- allocation gives; the number of rectangles that are grabbed.
pub data EvdiEvent : Type 0 where
  dpms : DpmsMode → EvdiEvent
  mode : MonitorMode → ℕ → EvdiEvent
  update : ℕ → EvdiEvent

-- What `monitorRequestFrame` meets: an update that is ready, with the number of rectangles, or how `poll`
-- ends.
pub data Request : Type 0 where
  ready : ℕ → Request
  poll_failed : Request
  poll_timeout : Request
  polled : List EvdiEvent → Request
