-- ===== src/Iddcx/Devices.antt =====
-- server/win32/iddcx.cpp: `CreateVirtualAdapter` and `CreateD3DDevice`, chains of calls of the system.
use monidroid.Base.{ℕ, ◌==◌, Bool, Option, none, some, if◌then◌else◌}

-- The calls of `CreateVirtualAdapter`: `none` is a success, `some` the code of a failure; and whether the
-- device is made within five seconds.
pub record VirtualCalls : Type 0 where
  pub create_event : Option ℕ
  pub create_device : Option ℕ
  pub created_in_time : Bool

-- The result, `none` for `S_OK`; `fail` is `E_FAIL`.
unfoldable pub create_virtual_adapter : ℕ → VirtualCalls → Option ℕ
create_virtual_adapter fail c = elim c.create_event [
  | some e ↦ some e
  | none ↦ elim c.create_device [
    | some e ↦ some e
    | none ↦ if c.created_in_time then none else some fail
  ]
]

-- The driver types that are asked for.
pub data DriverType : Type 0 where
  hardware unknown : DriverType

-- The calls of `CreateD3DDevice`, by the code of their failure; the last one gets the type.
pub record DeviceCalls : Type 0 where
  pub create_factory : Option ℕ
  pub enum_adapter : Option ℕ
  pub create_device : DriverType → Option ℕ

-- A LUID of 0 asks for any hardware. The result is `none` where the device has been made.
unfoldable pub create_d3d_device : ℕ → DeviceCalls → Option ℕ
create_d3d_device luid c = elim c.create_factory [
  | some e ↦ some e
  | none ↦
      if luid == 0
      then c.create_device hardware
      else elim c.enum_adapter [ some e ↦ some e | none ↦ c.create_device unknown ]
]
