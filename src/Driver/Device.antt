-- ===== src/Driver/Device.antt =====
-- iddcx-driver/Main.cpp: the start of the driver and of its device; `AdapterContext::Init` of Adapter.cpp. The
-- calls of the framework give a status.
use monidroid.Base.{Bool, true, false, Option, none, some, if◌then◌else◌}
use monidroid.Driver.Status.{Status, nt_success}
use monidroid.Driver.Adapter.{AdapterContext, new_adapter}

-- `DriverEntry`, with the status of `WdfDriverCreate`.
unfoldable pub driver_entry : Status → Status
driver_entry created = if nt_success created then Status.success else created

-- The four calls of `MdEvtDriverDeviceAdd` that can fail.
pub record DeviceCalls : Type 0 where
  pub init_config : Status
  pub create : Status
  pub symbolic_link : Status
  pub initialize : Status

-- The device: its context, if it has been made, and whether that has its adapter.
pub record Device : Type 0 where
  pub context : Option AdapterContext
  pub has_adapter : Bool

unfoldable pub evt_driver_device_add : DeviceCalls → Device × Status
unfolding new_adapter
evt_driver_device_add c =
    let bare : Device = record { context = none; has_adapter = false } in
    if nt_success c.init_config
    then (if nt_success c.create
        then (if nt_success c.symbolic_link
            then (record { context = some new_adapter; has_adapter = false }, c.initialize)
            else (bare, c.symbolic_link))
        else (bare, c.create))
    else (bare, c.init_config)

-- `Init`, with the status of `IddCxAdapterInitAsync`.
unfoldable pub init_adapter : Device → Status → Device × Status
init_adapter d status =
    if nt_success status then (record d { has_adapter = true }, Status.success) else (d, status)

-- `MdEvtDeviceD0Entry`; `none` where there is no context.
unfoldable pub evt_device_d0_entry : Device → Status → Option (Device × Status)
unfolding init_adapter
evt_device_d0_entry d status = elim d.context [
  | none ↦ none
  | some a ↦ some (init_adapter d status)
]
