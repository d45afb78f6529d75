-- ===== src/Driver/Ioctl.antt =====
-- iddcx-driver/Main.cpp: `MdEvtDeviceIoControl` and the callbacks for swap chains and power.
pub mod Served
pub mod Codes
use monidroid.Base.{ℕ, Option, none, some}
use monidroid.Edid.Mode.{Doubles}
use monidroid.Driver.Status.{Status}
use monidroid.Driver.Monitor.{
  MonitorContext, FrameMonitorInfo, RequestEnd, Hresult, assign_swap_chain, unassign_swap_chain,
}
use monidroid.Driver.Adapter.{
  AdapterContext, AdapterMonitorInfo, Framework, connect_monitor, disconnect_monitor, frame_request,
}

-- A request by its code, with its buffer and what the framework answers to the call that serves it.
pub data IoRequest : Type 0 where
  monitor_connect : AdapterMonitorInfo → Framework → IoRequest
  monitor_disconnect : AdapterMonitorInfo → Status → IoRequest
  request_frame : ℕ → FrameMonitorInfo → RequestEnd → IoRequest
  unknown_code : IoRequest

-- What is copied to the output: the buffer, whatever the status; nothing for other codes.
pub data IoOutput : Type 0 where
  monitor_info : AdapterMonitorInfo → IoOutput
  frame_info : FrameMonitorInfo → IoOutput
  nothing : IoOutput

pub record Completed : Type 0 where
  pub adapter : AdapterContext
  pub status : Status
  pub output : IoOutput

-- The end of `AdapterContext::FrameRequest`; `code` is `NTSTATUS_FROM_WIN32` of the code of an HRESULT.
unfoldable pub frame_status : (Hresult → ℕ) → Hresult → Status
frame_status code Hresult.ok = Status.success
frame_status code hr = Status.failure (code hr)

-- `none` is an index of a slot that is out of range, a frame request for an empty one, or a connection where
-- all slots are taken.
unfoldable pub device_io_control :
    Doubles → (Hresult → ℕ) → AdapterContext → IoRequest → Option Completed
unfolding connect_monitor disconnect_monitor frame_request frame_status
device_io_control d code a (monitor_connect info f) = elim (connect_monitor d a info f) [
  | none ↦ none
  | some r ↦ some (record { adapter = r.adapter; status = r.status; output = monitor_info r.info })
]
device_io_control d code a (monitor_disconnect info departure) =
    elim (disconnect_monitor a info.connector_index departure) [
      | none ↦ none
      | some r ↦ some (record { adapter = r.0; status = r.1; output = monitor_info info })
    ]
device_io_control d code a (request_frame idx info end) = elim (frame_request a idx info end) [
  | none ↦ none
  | some r ↦
      some (record { adapter = r.0; status = frame_status code r.2; output = frame_info r.1 })
]
device_io_control d code a unknown_code =
    some (record { adapter = a; status = Status.invalid_parameter; output = nothing })

-- `MdEvtMonitorAssignSwapChain` and `MdEvtMonitorUnassignSwapChain`, for the context of the monitor.
unfoldable pub evt_assign_swap_chain : MonitorContext → Hresult → Hresult → MonitorContext × Status
unfolding assign_swap_chain
evt_assign_swap_chain m init start = elim (assign_swap_chain m init start).1 [
  | Hresult.ok ↦ ((assign_swap_chain m init start).0, Status.success)
  | _ ↦ ((assign_swap_chain m init start).0, Status.abandon_swapchain)
]

unfoldable pub evt_unassign_swap_chain : MonitorContext → Option (MonitorContext × Status)
unfolding unassign_swap_chain
evt_unassign_swap_chain m = elim (unassign_swap_chain m) [
  | none ↦ none
  | some m' ↦ some (m', Status.success)
]
