-- ===== src/Iddcx/Frames.antt =====
-- The frames of the server, out of the driver's answers.
use monidroid.Base.{◌⊎◌, inl, inr, ℕ, ◌≡◌, ◌≢◌, refl, ap, ◌∙◌, arith, true, false, none, some}
use monidroid.Native.{FrameStatus}
use monidroid.Driver.Monitor.{
  MonitorProcessor, FrameMonitorInfo, RequestEnd, frame_ready, stopped, timeout, wait_frame,
  request_frame,
}
use monidroid.Driver.Monitor.{MonitorContext as DriverMonitor}
use monidroid.Iddcx.{
  Texture, MonitorContext, Calls, take_texture, stage_frame, check_device, monitor_request_frame,
}

-- The calls of a request that the driver answers so, and that all succeed with the texture `t`.
abbrev pub calls : FrameMonitorInfo → ℕ → Texture → Calls
calls info luid t = record {
  answer = some (info, luid);
  device_made = true;
  duplicated = true;
  shared = some t;
  staged = some t.texture;
}

staged_frame :
    (m : MonitorContext) (info : FrameMonitorInfo) (h : ℕ) (t : Texture)
    → info.enabled ≡ true
    → info.frame_handle ≡ some h
    → m.has_device ≡ true
    → monitor_request_frame m (calls info m.adapter_luid t) ≡ some (take_texture m t)
unfolding monitor_request_frame
staged_frame m info h t on e d =
    rw (on, e, d, monitor_request_frame) (unfold check_device stage_frame in ground (arith, d))

-- The monitor after a frame of the size of its mode, and with the size of a frame.
abbrev pub with_frame : MonitorContext → Texture → MonitorContext
with_frame m t = record m { current_frame = some t }

abbrev pub resized : MonitorContext → Texture → MonitorContext
resized m t = record m {
  current_frame = some t;
  current_mode = record m.current_mode { width = t.width; height = t.height };
}

same_size :
    (m : MonitorContext) (t : Texture)
    → m.current_mode.width ≡ t.width
    → m.current_mode.height ≡ t.height
    → take_texture m t ≡ (with_frame m t, FrameStatus.frame_ready)
unfolding take_texture
same_size m t e e' = ground arith

other_size :
    (m : MonitorContext) (t : Texture)
    → (m.current_mode.width ≢ t.width) ⊎ (m.current_mode.height ≢ t.height)
    → take_texture m t ≡ (resized m t, FrameStatus.mode_changed)
unfolding take_texture
other_size m t (inl n) = ground arith
other_size m t (inr n) = ground arith

-- A driver's monitor that is enabled, with a processor that has copied a frame.
abbrev pub showing : DriverMonitor → MonitorProcessor → ℕ → DriverMonitor
showing m p f = record m { enabled = true; processor = some (record p { current_frame = some f }) }

-- What the driver answers to the server, whose request has no handle.
abbrev pub reply : DriverMonitor → FrameMonitorInfo → RequestEnd → FrameMonitorInfo
reply m asked end = (request_frame m (record asked { frame_handle = none }) end).1

-- What the server makes of the driver's answer for a monitor that is shown: if the processor has stopped,
-- the monitor is off; if the wait ended without a frame, there is no update. A frame is taken: if it has the
-- size of the mode, the answer is a frame and the mode stays; if its width or its height is another one, the
-- answer is a change of the mode, which gets both and keeps its rate; and then the next frame of that size is
-- just a frame, which changes nothing.
pub monitor_request_frame-reply :
    (s : MonitorContext) (m : DriverMonitor) (p : MonitorProcessor) (asked : FrameMonitorInfo)
    (f h code : ℕ) (t : Texture)
    → s.has_device ≡ true
    → let driver = showing m p f in
      let a = reply driver asked (frame_ready (some h) code) in
      (monitor_request_frame s (calls (reply driver asked stopped) s.adapter_luid t)
        ≡ some (s, FrameStatus.monitor_off))
      × (monitor_request_frame s (calls (reply driver asked timeout) s.adapter_luid t)
          ≡ some (s, FrameStatus.no_updates))
      × (s.current_mode.width ≡ t.width
          → s.current_mode.height ≡ t.height
          → monitor_request_frame s (calls a s.adapter_luid t)
            ≡ some (with_frame s t, FrameStatus.frame_ready))
      × ((s.current_mode.width ≢ t.width) ⊎ (s.current_mode.height ≢ t.height)
          → monitor_request_frame s (calls a s.adapter_luid t)
            ≡ some (resized s t, FrameStatus.mode_changed))
      × (monitor_request_frame (resized s t) (calls a s.adapter_luid t)
          ≡ some (resized s t, FrameStatus.frame_ready))
monitor_request_frame-reply s m p asked f h code t d = (
  unfold monitor_request_frame request_frame wait_frame in refl,
  unfold monitor_request_frame request_frame wait_frame in refl,
  λ e e'. taken s d ∙ ap some (same_size s t e e'),
  λ n. taken s d ∙ ap some (other_size s t n),
  taken (resized s t) d ∙ ap some (same_size (resized s t) t refl refl),
)
  where
    answered :
        ((reply (showing m p f) asked (frame_ready (some h) code)).enabled ≡ true)
        × ((reply (showing m p f) asked (frame_ready (some h) code)).frame_handle ≡ some h)
    answered = unfold request_frame wait_frame in (refl, refl)

    taken :
        (s : MonitorContext)
        → s.has_device ≡ true
        → monitor_request_frame s
            (calls (reply (showing m p f) asked (frame_ready (some h) code)) s.adapter_luid t)
          ≡ some (take_texture s t)
    taken s d =
        staged_frame s (reply (showing m p f) asked (frame_ready (some h) code)) h t answered.0
          answered.1 d

-- A frame of another adapter for which no device can be made is an error, and leaves the server without a
-- device, but with the old adapter's number: the next frame of the old adapter is taken from the device that
-- is not there.
pub monitor_request_frame_crashes :
    (s : MonitorContext) (info : FrameMonitorInfo) (h luid : ℕ) (t : Texture)
    → luid ≢ s.adapter_luid
    → info.enabled ≡ true
    → info.frame_handle ≡ some h
    → (s' : MonitorContext) × (monitor_request_frame s
          (record (calls info luid t) { device_made = false })
        ≡ some (s', FrameStatus.error))
      × (monitor_request_frame s' (calls info s.adapter_luid t) ≡ none)
unfolding monitor_request_frame
monitor_request_frame_crashes s info h luid t n on e = (
  record s { has_device = false },
  rw (on, e, monitor_request_frame) (unfold check_device in ground arith),
  rw (on, e, monitor_request_frame) (unfold check_device stage_frame in ground arith),
)
