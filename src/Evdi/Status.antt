-- ===== src/Evdi/Status.antt =====
-- What the answers to the frame requests promise.
use monidroid.Base.{◌≡◌, arith, Bool-cases, inl, inr, ◌==◌, some, none, u32}
use monidroid.Native.{FrameStatus}
use monidroid.Evdi.Data.{MonitorContext, Request, ready, poll_failed, poll_timeout, polled}
use monidroid.Evdi.Monitor.{handle_events, status_of, monitor_request_frame, monitor_map_current}

-- What a status says of the monitor.
pub record Promise (m : MonitorContext) (s : FrameStatus) : Type 0 where
  pub frame :
      s ≡ FrameStatus.frame_ready
      → monitor_map_current m ≡ record {
        pixels = some m.frame_buffer_info.buffer;
        width = u32 m.frame_buffer_info.width;
        height = u32 m.frame_buffer_info.height;
        stride = u32 m.frame_buffer_info.stride;
      }
  pub changed : s ≡ FrameStatus.mode_changed → (monitor_map_current m).pixels ≡ none
  pub off : s ≡ FrameStatus.monitor_off → (monitor_map_current m).pixels ≡ none

status_of-Promise : (m : MonitorContext) → Promise m (status_of m)
unfolding status_of monitor_map_current
status_of-Promise m = record {
  frame = λ e. ground arith;
  changed = λ e. ground arith;
  off = λ e. ground arith;
}

-- A frame request that says that a frame is ready leaves a buffer that can be mapped; one that says that
-- the mode has changed, or that the monitor is off, leaves none.
pub monitor_request_frame_status :
    (r : Request) (m : MonitorContext) → let (m', s) = monitor_request_frame r m in Promise m' s
unfolding monitor_request_frame
monitor_request_frame_status (ready n) m = elim (Bool-cases (n == 0)) [
  | inl e ↦ rw e (
      unfold monitor_map_current in
      record { frame = λ h. cc; changed = λ h. ground arith; off = λ h. cc })
  | inr e ↦ rw e (
      unfold monitor_map_current in
      record { frame = λ h. ground arith; changed = λ h. cc; off = λ h. cc })
]
monitor_request_frame_status poll_failed m = record {
  frame = λ e. cc;
  changed = λ e. cc;
  off = λ e. cc;
}
monitor_request_frame_status poll_timeout m =
    unfold monitor_map_current in
    record { frame = λ e. ground arith; changed = λ e. ground arith; off = λ e. ground arith }
monitor_request_frame_status (polled es) m = status_of-Promise (handle_events es m)
