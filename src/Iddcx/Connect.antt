-- ===== src/Iddcx/Connect.antt =====
-- server/win32/iddcx.cpp: `adapterConnectMonitor`, `monitorDisconnect` and input, on the driver's handler of
-- requests. `DeviceIoControl` gives the driver's output where the status is a success.
use monidroid.Base.{ℕ, Bool, Option, none, some, List, [], ◌∷◌, ◌%◌, ◌/◌, ◌==◌, if◌then◌else◌}
use monidroid.Edid.Data.{MonitorMode}
use monidroid.Edid.Mode.{Doubles}
use monidroid.Driver.Status.{Status, nt_success}
use monidroid.Driver.Monitor.{Hresult}
use monidroid.Driver.Adapter
use monidroid.Driver.Adapter.{AdapterMonitorInfo, Framework}
use monidroid.Driver.Ioctl.{monitor_connect, monitor_info, Completed, device_io_control}
use monidroid.Driver.Ioctl
use monidroid.Iddcx.{MonitorContext}

-- `MONITOR_TAG`
abbrev pub monitor_tag : List ℕ
monitor_tag =
    b'<' ∷ b'u' ∷ b'n' ∷ b'n' ∷ b'a' ∷ b'm' ∷ b'e' ∷ b'd' ∷ b' ' ∷ b'm' ∷ b'o' ∷ b'n' ∷ b'i' ∷ b't'
    ∷ b'o' ∷ b'r' ∷ b'>' ∷ []

unfoldable pub name_of : List ℕ → List ℕ
name_of [] = monitor_tag
name_of (x ∷ xs) = x ∷ xs

-- The output of a request that succeeded.
unfoldable pub answer_of : Completed → Option AdapterMonitorInfo
answer_of r =
    if nt_success r.status then elim r.output [ monitor_info info ↦ some info | _ ↦ none ] else none

-- What the calls of the system give: the framework's answers in the driver, whether the driver's process
-- can be opened, and whether a device can be made on its adapter; a LUID that is reset is 0.
pub record ConnectCalls : Type 0 where
  pub framework : Framework
  pub process_opens : Bool
  pub device_made : Bool

unfoldable pub monitor_of : List ℕ → MonitorMode → AdapterMonitorInfo → Bool → MonitorContext
unfolding name_of
monitor_of model mode out device_made = record {
  model_name = name_of model;
  current_mode = mode;
  connector_index = out.connector_index;
  adapter_luid = if device_made then out.adapter_luid else 0;
  has_device = device_made;
  current_frame = none;
}

-- The driver's adapter after it, and the monitor, `none` for null.
unfoldable pub adapter_connect_monitor :
    Doubles
    → (Hresult → ℕ)
    → Adapter.AdapterContext
    → List ℕ
    → MonitorMode
    → ConnectCalls
    → Option (Adapter.AdapterContext × Option MonitorContext)
unfolding device_io_control answer_of monitor_of
adapter_connect_monitor d code a model mode c =
    let info : AdapterMonitorInfo = record {
      width = mode.width;
      height = mode.height;
      hertz = mode.refresh_rate;
      connector_index = 0;
      adapter_luid = 0;
    } in
    elim (device_io_control d code a (monitor_connect info c.framework)) [
      | none ↦ none
      | some r ↦ elim (answer_of r) [
        | none ↦ some (r.adapter, none)
        | some out ↦
            if c.process_opens
            then some (r.adapter, some (monitor_of model mode out c.device_made))
            else some (r.adapter, none)
      ]
    ]

-- The adapter is `none` where it has been closed; a failure is logged.
unfoldable pub monitor_disconnect :
    Doubles
    → (Hresult → ℕ)
    → Option Adapter.AdapterContext
    → MonitorContext
    → Status
    → Option (Option Adapter.AdapterContext)
unfolding device_io_control
monitor_disconnect d code none m departure = some none
monitor_disconnect d code (some a) m departure =
    let info : AdapterMonitorInfo = record {
      width = 0;
      height = 0;
      hertz = 0;
      connector_index = m.connector_index;
      adapter_luid = 0;
    } in
    elim (device_io_control d code a (Ioctl.monitor_disconnect info departure)) [
      | none ↦ none
      | some r ↦ some (some r.adapter)
    ]

-- `INPUT` of the mouse, as `SendInput` gets it.
pub data MouseFlag : Type 0 where
  move wheel : MouseFlag
  left_down left_up right_down right_up middle_down middle_up : MouseFlag

pub record MouseInput : Type 0 where
  pub dx : ℕ
  pub dy : ℕ
  pub mouse_data : ℕ
  pub flags : List MouseFlag

-- The three `monitorSendInput`; the bits of the buttons are those of protocol.h.
unfoldable pub send_input_move : ℕ → ℕ → MouseInput
send_input_move dx dy = record { dx = dx; dy = dy; mouse_data = 0; flags = MouseFlag.move ∷ [] }

unfoldable pub send_input_buttons : ℕ → MouseInput
send_input_buttons buttons = record {
  dx = 0;
  dy = 0;
  mouse_data = 0;
  flags =
      (if buttons % 2 == 1 then MouseFlag.left_down else MouseFlag.left_up)
      ∷ (if buttons / 2 % 2 == 1 then MouseFlag.right_down else MouseFlag.right_up)
      ∷ (if buttons / 4 % 2 == 1 then MouseFlag.middle_down else MouseFlag.middle_up)
      ∷ [];
}

unfoldable pub send_input_scroll : ℕ → MouseInput
send_input_scroll scroll = record {
  dx = 0;
  dy = 0;
  mouse_data = scroll;
  flags = MouseFlag.wheel ∷ [];
}
