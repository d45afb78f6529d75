-- ===== src/Iddcx.antt =====
-- server/win32/iddcx.cpp: the monitors of the Windows server, on the driver of the repository.
pub mod Frames
pub mod Devices
pub mod Connect
pub mod Plugging
pub mod Handles
use monidroid.Base.{
  ℕ, zero, suc, ◌+◌, ◌==◌, ◌||◌, not, Bool, true, false, Option, none, some, List, [], ◌∷◌,
  if◌then◌else◌,
}
use monidroid.Native.{FrameStatus, FrameMapInfo}
use monidroid.Edid.Data.{MonitorMode}
use monidroid.Driver.Monitor.{FrameMonitorInfo}

-- A texture: its number, and its size.
pub record Texture : Type 0 where
  pub texture : ℕ
  pub width : ℕ
  pub height : ℕ

pub record MonitorContext : Type 0 where
  pub model_name : List ℕ
  pub current_mode : MonitorMode
  pub connector_index : ℕ
  pub adapter_luid : ℕ
  pub has_device : Bool
  pub current_frame : Option Texture

-- What the calls of the system in `monitorRequestFrame` give: the driver's answer with the LUID of its
-- adapter, if the request succeeds; whether a new device can be made; the duplicated handle; the shared
-- texture; and the staging texture's number.
pub record Calls : Type 0 where
  pub answer : Option (FrameMonitorInfo × ℕ)
  pub device_made : Bool
  pub duplicated : Bool
  pub shared : Option Texture
  pub staged : Option ℕ

-- The part after the device has been checked.
unfoldable pub take_texture : MonitorContext → Texture → MonitorContext × FrameStatus
take_texture m t =
    let m' = record m { current_frame = some t } in
    if not (m.current_mode.width == t.width) || not (m.current_mode.height == t.height)
    then (
      record m' { current_mode = record m.current_mode { width = t.width; height = t.height } },
      FrameStatus.mode_changed,
    )
    else (m', FrameStatus.frame_ready)

-- From the duplication of the handle on; `none` is the call of a device that is not there.
unfoldable pub stage_frame : MonitorContext → Calls → Option (MonitorContext × FrameStatus)
unfolding take_texture
stage_frame m c =
    if not c.duplicated
    then some (m, FrameStatus.error)
    else if m.has_device
    then elim c.shared [
      | none ↦ some (m, FrameStatus.error)
      | some t ↦ elim c.staged [
        | none ↦ some (record m { current_frame = none }, FrameStatus.error)
        | some n ↦ some (take_texture m (record t { texture = n }))
      ]
    ]
    else none

-- A new device is made where the driver's adapter is another one.
unfoldable pub check_device : MonitorContext → ℕ → Calls → Option (MonitorContext × FrameStatus)
unfolding stage_frame
check_device m luid c =
    if luid == m.adapter_luid
    then stage_frame m c
    else if c.device_made
    then stage_frame (record m { has_device = true; adapter_luid = luid }) c
    else some (record m { has_device = false }, FrameStatus.error)

unfoldable pub monitor_request_frame :
    MonitorContext → Calls → Option (MonitorContext × FrameStatus)
unfolding check_device
monitor_request_frame m c = elim c.answer [
  | none ↦ some (m, FrameStatus.error)
  | some (out, luid) ↦
      if out.enabled
      then elim out.frame_handle [
        | none ↦ some (m, FrameStatus.no_updates)
        | some h ↦ check_device m luid c
      ]
      else some (m, FrameStatus.monitor_off)
]

unfoldable pub monitor_request_mode : MonitorContext → MonitorMode
monitor_request_mode m = m.current_mode

-- `videoHealthCheck`: how an attempt to open the adapter ends, and, once, whether a virtual one can be
-- created. `some` is a return, `none` an exception; the attempts are those that are left.
unfoldable pub video_health_check : ℕ → Bool → (ℕ → Bool) → Bool → Option ℕ
video_health_check zero created opens can_create = none
video_health_check (suc retries) created opens can_create =
    let rest = video_health_check retries true opens can_create in
    if opens (suc retries) then some (suc retries) else if created || can_create then rest else none

-- `monitorMapCurrent`, with the address and the row pitch that `Map` gives, if it succeeds; it does not
-- without a frame.
unfoldable pub monitor_map_current : MonitorContext → Option (ℕ × ℕ) → FrameMapInfo
monitor_map_current m mapped = elim m.current_frame [
  | none ↦ record { pixels = none; width = 0; height = 0; stride = 0 }
  | some t ↦ elim mapped [
    | none ↦ record { pixels = none; width = 0; height = 0; stride = 0 }
    | some (address, pitch) ↦ record {
      pixels = some address;
      width = t.width;
      height = t.height;
      stride = pitch;
    }
  ]
]
