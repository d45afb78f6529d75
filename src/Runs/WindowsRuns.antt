-- ===== src/Runs/WindowsRuns.antt =====
-- Runs of the Windows monitors.
use monidroid.Base.{
  ◌≢◌, ◌⊎◌, ℕ, List, ◌+◌, length, ◌≡◌, ◌<◌, refl, arith, true, false, none, some, [], ◌∷◌,
  replicate, get_elem?,
}
use monidroid.Native.{FrameStatus}
use monidroid.Driver.Monitor.{
  MonitorProcessor, FrameMonitorInfo, frame_ready, stopped, timeout, new_monitor,
}
use monidroid.Iddcx.{Texture, MonitorContext, monitor_request_frame}
use monidroid.Iddcx.Frames.{
  calls, showing, reply, with_frame, resized, monitor_request_frame-reply,
  monitor_request_frame_crashes,
}
use monidroid.Driver.Status.{Status}
use monidroid.Driver.Adapter.{
  AdapterContext, empty_slot, connect_monitor, plug_in, with_monitor, disconnect_monitor,
}
use monidroid.Driver.Ioctl.{device_io_control}
use monidroid.Iddcx.Handles.{
  Process, new_process, open_adapter, close_adapter, close_monitor, connect, take_out, driver_of,
  disconnect, Call, connects, disconnects, all_calls, all_calls-IsHeld,
}
use monidroid.Iddcx.Connect.{answer_of, monitor_of, adapter_connect_monitor, monitor_disconnect}
use monidroid.Iddcx.Plugging.{accepts, adapter_connect_monitor-monitor_disconnect}
use monidroid.Runs.Samples.{pixel, full_hd, fixed_point}

abbrev monitor : MonitorContext
monitor = record {
  model_name = pixel;
  current_mode = full_hd;
  connector_index = 0;
  adapter_luid = 8;
  has_device = true;
  current_frame = none;
}

abbrev processor : MonitorProcessor
processor = record {
  running = true;
  stop_event = false;
  frame_ready_event = false;
  frame_requested = false;
  current_frame = none;
  frame_number = 5;
}

abbrev info : FrameMonitorInfo
info = record { frame_handle = some 70; enabled = true; frame_number = 5; mode = full_hd }

abbrev wide : Texture
wide = record { texture = 3; width = 2560; height = 1080 }

monitor_request_frame-reply_example :
    let driver = showing (new_monitor 50) processor 7 in
    let a = reply driver info (frame_ready (some 70) 0) in
    (monitor_request_frame monitor (calls (reply driver info stopped) 8 wide)
      ≡ some (monitor, FrameStatus.monitor_off))
    × (monitor_request_frame monitor (calls (reply driver info timeout) 8 wide)
        ≡ some (monitor, FrameStatus.no_updates))
    × (full_hd.width ≡ wide.width
        → full_hd.height ≡ wide.height
        → monitor_request_frame monitor (calls a 8 wide)
          ≡ some (with_frame monitor wide, FrameStatus.frame_ready))
    × ((full_hd.width ≢ wide.width) ⊎ (full_hd.height ≢ wide.height)
        → monitor_request_frame monitor (calls a 8 wide)
          ≡ some (resized monitor wide, FrameStatus.mode_changed))
    × (monitor_request_frame (resized monitor wide) (calls a 8 wide)
        ≡ some (resized monitor wide, FrameStatus.frame_ready))
monitor_request_frame-reply_example =
    monitor_request_frame-reply monitor (new_monitor 50) processor info 7 70 0 wide refl

monitor_request_frame_crashes_example :
    (s' : MonitorContext) × (monitor_request_frame monitor
        (record (calls info 9 wide) { device_made = false })
      ≡ some (s', FrameStatus.error))
    × (monitor_request_frame s' (calls info 8 wide) ≡ none)
monitor_request_frame_crashes_example =
    monitor_request_frame_crashes monitor info 70 9 wide (λ e. omega arith) refl refl

abbrev driver : AdapterContext
driver = record { connected_monitors = some 40 ∷ none ∷ some 42 ∷ replicate 13 none; monitors = [] }

second_slot : empty_slot driver.connected_monitors < 16
unfolding empty_slot
second_slot = omega arith

adapter_connect_monitor-monitor_disconnect_example :
    (a' : AdapterContext) × (m : MonitorContext) × (adapter_connect_monitor fixed_point
        (λ _. 5)
        driver
        pixel
        full_hd
        (record { framework = accepts 50 8 0 0; process_opens = true; device_made = false })
      ≡ some (a', some m))
    × (m.current_mode ≡ full_hd)
    × (get_elem? driver.connected_monitors m.connector_index ≡ some none)
    × ((j : ℕ)
        → j < m.connector_index
        → (k : ℕ) × (get_elem? driver.connected_monitors j ≡ some (some k)))
    × (get_elem? a'.connected_monitors m.connector_index ≡ some (some 50))
    × (monitor_disconnect fixed_point (λ _. 5) (some a') m Status.success
        ≡ some (some (record a' { connected_monitors = driver.connected_monitors })))
adapter_connect_monitor-monitor_disconnect_example =
    adapter_connect_monitor-monitor_disconnect fixed_point (λ _. 5) driver pixel full_hd 50 8 0 0
      false Status.success refl second_slot

-- A monitor that is plugged in and taken away again.
abbrev in_and_out : List Call
in_and_out =
    connects pixel full_hd
      (record { framework = accepts 50 8 0 0; process_opens = true; device_made = false })
    ∷ disconnects 0 Status.success
    ∷ []

ends_with :
    (q : Process) × (all_calls fixed_point
        (λ _. 5)
        in_and_out
        (open_adapter true (new_process driver))
      ≡ some q)
unfolding all_calls connect disconnect take_out driver_of close_monitor open_adapter new_process
    adapter_connect_monitor monitor_disconnect device_io_control connect_monitor plug_in empty_slot
    disconnect_monitor answer_of monitor_of with_monitor
ends_with = (_, refl)

all_calls-IsHeld_example :
    (ends_with.0.handles ≡ 1 + length ends_with.0.monitors)
    × ((close_adapter ends_with.0).handles ≡ length ends_with.0.monitors)
all_calls-IsHeld_example =
    all_calls-IsHeld fixed_point (λ _. 5) driver in_and_out ends_with.0 ends_with.1
