-- ===== src/Evdi/Monitor.antt =====
-- server/linux/evdi.cpp: the handlers and the operations of a monitor. The products of
-- sizes are those of an `int` of 32 bits that wraps round.
use monidroid.Base.{
  ℕ, ◌*◌, ◌/◌, ◌%◌, true, false, not, ◌||◌, none, some, List, [], ◌∷◌, ltb, ◌==◌, if◌then◌else◌,
  u32,
}
use monidroid.Native.{FrameStatus, FrameMapInfo}
use monidroid.Edid.Data.{MonitorMode}
use monidroid.Evdi.Data.{
  MonitorContext, rel_x, rel_y, rel_wheel, btn_left, btn_right, btn_middle, syn, DpmsMode, on,
  EvdiEvent, dpms, mode, update, Request, ready, poll_failed, poll_timeout, polled,
}

-- `allocFrameBuffer`. `reserve` keeps the memory where it is large enough; else it is at `address`.
unfoldable pub alloc_frame_buffer : MonitorContext → ℕ → ℕ → ℕ → MonitorContext
alloc_frame_buffer m width height address =
    let size = u32 (width * height) in
    let grows = ltb m.capacity size in
    let buffer = if grows then address else m.frame_buffer in
    record m {
      frame_buffer = buffer;
      capacity = if grows then size else m.capacity;
      frame_buffer_info = record {
        buffer = buffer;
        width = width;
        height = height;
        stride = u32 (width * 4);
      };
    }

unfoldable pub dpms_handler : DpmsMode → MonitorContext → MonitorContext
dpms_handler on m = record m { enabled = true }
dpms_handler _ m = record m { enabled = false }

unfoldable pub mode_handler : MonitorMode → ℕ → MonitorContext → MonitorContext
unfolding alloc_frame_buffer
mode_handler new address m =
    alloc_frame_buffer
      (record m {
        current = record {
          width = u32 new.width;
          height = u32 new.height;
          refresh_rate = u32 new.refresh_rate;
        };
      })
      new.width new.height address

-- `evdi_grab_pixels` sets the number of rectangles.
unfoldable pub update_handler : ℕ → MonitorContext → MonitorContext
update_handler rects m = record m { rects_count = if m.enabled then rects else 0 }

unfoldable pub handle_events : List EvdiEvent → MonitorContext → MonitorContext
unfolding dpms_handler mode_handler update_handler
handle_events [] m = m
handle_events (dpms d ∷ es) m = handle_events es (dpms_handler d m)
handle_events (mode new address ∷ es) m = handle_events es (mode_handler new address m)
handle_events (update rects ∷ es) m = handle_events es (update_handler rects m)

-- The end of `monitorRequestFrame` after the events.
unfoldable pub status_of : MonitorContext → FrameStatus
status_of m =
    if not m.enabled
    then FrameStatus.monitor_off
    else (if m.rects_count == 0 then FrameStatus.mode_changed else FrameStatus.frame_ready)

unfoldable pub monitor_request_frame : Request → MonitorContext → MonitorContext × FrameStatus
unfolding handle_events status_of
monitor_request_frame (ready rects) m =
    let m' = record m { rects_count = rects } in
    if rects == 0
    then (m', FrameStatus.mode_changed)
    else (record m' { enabled = true }, FrameStatus.frame_ready)
monitor_request_frame poll_failed m = (m, FrameStatus.error)
monitor_request_frame poll_timeout m =
    (m, if m.enabled then FrameStatus.no_updates else FrameStatus.monitor_off)
monitor_request_frame (polled events) m = let m' = handle_events events m in (m', status_of m')

unfoldable pub monitor_request_mode : MonitorContext → MonitorMode
monitor_request_mode m = m.current

-- The three `monitorSendInput`; the bits of the flags are those of protocol.h.
unfoldable pub monitor_send_input_move : MonitorContext → ℕ → ℕ → MonitorContext
monitor_send_input_move m dx dy = record m { reports = syn ∷ rel_y dy ∷ rel_x dx ∷ m.reports }

unfoldable pub monitor_send_input_buttons : MonitorContext → ℕ → MonitorContext
monitor_send_input_buttons m flags = record m {
  reports =
      syn
      ∷ btn_middle (flags / 4 % 2 == 1)
      ∷ btn_right (flags / 2 % 2 == 1)
      ∷ btn_left (flags % 2 == 1)
      ∷ m.reports;
}

unfoldable pub monitor_send_input_scroll : MonitorContext → ℕ → MonitorContext
monitor_send_input_scroll m scroll = record m { reports = syn ∷ rel_wheel scroll ∷ m.reports }

-- `monitorMapCurrent`; the fields after a null pointer are zero.
unfoldable pub monitor_map_current : MonitorContext → FrameMapInfo
monitor_map_current m =
    if not m.enabled || m.rects_count == 0
    then record { pixels = none; width = 0; height = 0; stride = 0 }
    else record {
      pixels = some m.frame_buffer_info.buffer;
      width = u32 m.frame_buffer_info.width;
      height = u32 m.frame_buffer_info.height;
      stride = u32 m.frame_buffer_info.stride;
    }
