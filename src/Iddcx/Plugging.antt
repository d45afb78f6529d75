-- ===== src/Iddcx/Plugging.antt =====
-- Monitors of the Windows server and the slots of the driver.
use monidroid.Base.{ℕ, ◌<◌, ◌≡◌, refl, Bool, true, none, some, List, length, get_elem?}
use monidroid.Edid.Data.{MonitorMode}
use monidroid.Edid.Mode.{Doubles}
use monidroid.Driver.Status.{Status}
use monidroid.Driver.Monitor.{Hresult}
use monidroid.Driver.Adapter.{
  AdapterContext, AdapterMonitorInfo, Connected, Framework, max_monitor_count, empty_slot,
  connect_monitor, disconnect_monitor,
}
use monidroid.Driver.Adapter.Slots.{connect_monitor-disconnect_monitor}
use monidroid.Driver.Ioctl.{device_io_control}
use monidroid.Iddcx.{MonitorContext}
use monidroid.Iddcx.Connect.{answer_of, monitor_of, adapter_connect_monitor, monitor_disconnect}

-- What the server asks of the driver, and a framework that accepts the monitor as `h` on the adapter `luid`.
abbrev pub asked : MonitorMode → AdapterMonitorInfo
asked mode = record {
  width = mode.width;
  height = mode.height;
  hertz = mode.refresh_rate;
  connector_index = 0;
  adapter_luid = 0;
}

abbrev pub accepts : (h luid code code' : ℕ) → Framework
accepts h luid code code' = record {
  created = some h;
  create_status = code;
  arrived = some luid;
  arrival_status = code';
}

connected :
    (d : Doubles) (hr_code : Hresult → ℕ) (a : AdapterContext) (model : List ℕ) (mode : MonitorMode)
    (f : Framework) (made : Bool) (r : Connected)
    → connect_monitor d a (asked mode) f ≡ some r
    → r.status ≡ Status.success
    → adapter_connect_monitor d hr_code a model mode
        (record { framework = f; process_opens = true; device_made = made })
      ≡ some (r.adapter, some (monitor_of model mode r.info made))
unfolding adapter_connect_monitor device_io_control answer_of
connected d hr_code a model mode f made r q e =
    rw (adapter_connect_monitor, device_io_control, q, answer_of, e) refl

disconnected :
    (d : Doubles) (hr_code : Hresult → ℕ) (a a' : AdapterContext) (m : MonitorContext)
    (departure status : Status)
    → disconnect_monitor a m.connector_index departure ≡ some (a', status)
    → monitor_disconnect d hr_code (some a) m departure ≡ some (some a')
unfolding monitor_disconnect device_io_control
disconnected d hr_code a a' m departure status e =
    rw (monitor_disconnect, device_io_control, e) refl

-- The server's connection of a monitor through the driver, where every call of the system succeeds but perhaps
-- the creation of a device, and a slot is empty: the server gets a monitor of the mode that it asked for, on
-- the lowest empty slot of the driver, since that slot was empty and every slot below it was taken; the slot
-- holds the new monitor; and its disconnection makes the driver's slots what they were, whatever the framework
-- says of it.
pub adapter_connect_monitor-monitor_disconnect :
    (d : Doubles) (hr_code : Hresult → ℕ) (a : AdapterContext) (model : List ℕ) (mode : MonitorMode)
    (h luid code code' : ℕ) (made : Bool) (departure : Status)
    → length a.connected_monitors ≡ max_monitor_count
    → empty_slot a.connected_monitors < max_monitor_count
    → (a' : AdapterContext) × (m : MonitorContext) × (adapter_connect_monitor d hr_code a model mode
          (record {
            framework = accepts h luid code code';
            process_opens = true;
            device_made = made;
          })
        ≡ some (a', some m))
      × (m.current_mode ≡ mode)
      × (get_elem? a.connected_monitors m.connector_index ≡ some none)
      × ((j : ℕ)
          → j < m.connector_index
          → (k : ℕ) × (get_elem? a.connected_monitors j ≡ some (some k)))
      × (get_elem? a'.connected_monitors m.connector_index ≡ some (some h))
      × (monitor_disconnect d hr_code (some a') m departure
          ≡ some (some (record a' { connected_monitors = a.connected_monitors })))
unfolding monitor_of
adapter_connect_monitor-monitor_disconnect d hr_code a model mode h luid code code' made departure n
      l =
    let (r, er, ok, was_empty, held, below, back) =
      connect_monitor-disconnect_monitor d a (asked mode) h luid code code' departure n l in
    (
      r.adapter,
      monitor_of model mode r.info made,
      connected d hr_code a model mode (accepts h luid code code') made r er ok,
      refl,
      was_empty,
      below,
      held,
      disconnected d hr_code r.adapter _ (monitor_of model mode r.info made) departure departure
          back,
    )
