-- ===== src/Driver/Monitor.antt =====
-- iddcx-driver/Monitor.cpp: a monitor's context and its processor.
use mathlib.Core.Option
use monidroid.Base.{ℕ, ◌/◌, ◌==◌, Bool, true, false, Option, none, some, if◌then◌else◌}
use monidroid.Edid.Data.{MonitorMode}
use monidroid.Driver.Modes.{SignalInfo}

-- The HRESULT values that matter.
pub data Hresult : Type 0 where
  ok pending abort out_of_memory unexpected : Hresult
  failure : ℕ → Hresult

abbrev pub succeeded : Hresult → Bool
succeeded Hresult.ok = true
succeeded _ = false

-- The state of `MonitorProcessor`: whether its thread runs, whether the stop and the frame-ready events are
-- set, whether a frame is wanted, and the texture and the number of the copied frame.
pub record MonitorProcessor : Type 0 where
  pub running : Bool
  pub stop_event : Bool
  pub frame_ready_event : Bool
  pub frame_requested : Bool
  pub current_frame : Option ℕ
  pub frame_number : ℕ

pub record MonitorContext : Type 0 where
  pub monitor : ℕ
  pub preferred : MonitorMode
  pub current : MonitorMode
  pub enabled : Bool
  pub processor : Option MonitorProcessor

unfoldable pub new_monitor : ℕ → MonitorContext
new_monitor h = record {
  monitor = h;
  preferred = record { width = 0; height = 0; refresh_rate = 0 };
  current = record { width = 0; height = 0; refresh_rate = 0 };
  enabled = false;
  processor = none;
}

unfoldable pub setup_monitor : MonitorContext → ℕ → ℕ → ℕ → MonitorContext
setup_monitor m width height hertz = record m {
  preferred = record { width = width; height = height; refresh_rate = hertz };
}

unfoldable pub preferred_mode : MonitorContext → MonitorMode
preferred_mode m = m.preferred

-- `IDDCX_PATH`: the monitor, the flag `IDDCX_PATH_FLAGS_ACTIVE` and the signal.
pub record IddcxPath : Type 0 where
  pub monitor_object : ℕ
  pub is_active : Bool
  pub signal : SignalInfo

-- `none` is a division by 0.
unfoldable pub commit_mode : MonitorContext → IddcxPath → Option MonitorContext
commit_mode m p =
    if p.is_active
    then (if p.signal.v_sync_freq_divider == 0
        then none
        else some (record m {
          enabled = true;
          current = record {
            width = p.signal.active_width;
            height = p.signal.active_height;
            refresh_rate = p.signal.v_sync_numerator / p.signal.v_sync_freq_divider;
          };
        }))
    else some (record m { enabled = false })

-- A new processor that `Init` and `Start` have set up.
unfoldable pub start_processor : MonitorProcessor
start_processor = record {
  running = true;
  stop_event = false;
  frame_ready_event = false;
  frame_requested = false;
  current_frame = none;
  frame_number = 0;
}

-- `AssignSwapChain`, with what `Init` and `Start` return. The old processor is stopped and freed.
unfoldable pub assign_swap_chain : MonitorContext → Hresult → Hresult → MonitorContext × Hresult
unfolding start_processor
assign_swap_chain m init start =
    if succeeded init
    then (if succeeded start
        then (record m { processor = some start_processor }, start)
        else (record m { processor = none }, start))
    else (record m { processor = none }, init)

-- `UnassignSwapChain`; `none` where there is no processor to stop.
unfoldable pub unassign_swap_chain : MonitorContext → Option MonitorContext
unassign_swap_chain m = Option.map (λ _. record m { processor = none }) m.processor

-- `FRAME_MONITOR_INFO`
pub record FrameMonitorInfo : Type 0 where
  pub frame_handle : Option ℕ
  pub enabled : Bool
  pub frame_number : ℕ
  pub mode : MonitorMode

-- How the wait of `MonitorProcessor::RequestFrame` ends; with a ready frame, the shared handle of its
-- texture or the failure.
pub data RequestEnd : Type 0 where
  frame_ready : Option ℕ → ℕ → RequestEnd
  stopped timeout broken : RequestEnd

-- With a ready frame, the processor's thread has seen the request and taken it back before the event.
unfoldable pub wait_frame :
    MonitorProcessor → FrameMonitorInfo → RequestEnd → MonitorProcessor × FrameMonitorInfo × Hresult
wait_frame p info (frame_ready handle code) =
    let p' = record p { frame_requested = false; frame_ready_event = false } in
    elim p.current_frame [
      | none ↦ (p', info, Hresult.out_of_memory)
      | some t ↦ elim handle [
        | none ↦ (p', info, Hresult.failure code)
        | some h ↦
            (p', record info { frame_number = p.frame_number; frame_handle = some h }, Hresult.ok)
      ]
    ]
wait_frame p info stopped = (record p { frame_requested = true }, info, Hresult.abort)
wait_frame p info timeout = (record p { frame_requested = true }, info, Hresult.ok)
wait_frame p info broken = (record p { frame_requested = true }, info, Hresult.unexpected)

abbrev pub unless_abort : Hresult → Hresult
unless_abort Hresult.abort = Hresult.ok
unless_abort hr = hr

-- `MonitorContext::RequestFrame`
unfoldable pub request_frame :
    MonitorContext → FrameMonitorInfo → RequestEnd → MonitorContext × FrameMonitorInfo × Hresult
unfolding wait_frame
request_frame m info end =
    if m.enabled
    then elim m.processor [
      | none ↦ (m, record info { enabled = false }, Hresult.ok)
      | some p ↦
          let (p', info', hr) = wait_frame p info end in
          let m' = record m { processor = some p' } in
          if succeeded hr
          then (m', record info' { mode = m.current; enabled = true }, unless_abort hr)
          else (m', record info' { enabled = false }, unless_abort hr)
    ]
    else (m, record info { enabled = false }, Hresult.ok)
