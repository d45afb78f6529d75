-- ===== src/Driver/Ioctl/Codes.antt =====
-- iddcx-driver/iddcx.h: the codes of the requests, and the switch over them in iddcx-driver/Main.cpp. `CTL_CODE` is
-- a macro of the system, which packs the type of the device, the function, the method and the access.
use monidroid.Base.{
  ℕ, ◌+◌, ◌<◌, ◌^◌, ◌≡◌, ◌≢◌, refl, arith, true, false, Option, none, some, ◌==◌, ==_iff,
  if◌then◌else◌, Bool-cases, inl, inr,
}
use monidroid.Edid.Mode.{Doubles}
use monidroid.Driver.Monitor.{Hresult}
use monidroid.Driver.Adapter.{AdapterContext}
use monidroid.Driver.Ioctl.{IoRequest, unknown_code, Completed, device_io_control}

-- The requests that are defined. The structs that are defined with them are used nowhere.
pub data Ioctl : Type 0 where
  monitor_connect monitor_disconnect request_frame fast_request_frame : Ioctl

pub data Method : Type 0 where
  buffered out_direct : Method

-- `MD_IOCTL_FUNC_BASE`
abbrev pub func_base : ℕ
func_base = 0xa10

unfoldable pub function_of : Ioctl → ℕ
function_of monitor_connect = func_base + 0
function_of monitor_disconnect = func_base + 1
function_of request_frame = func_base + 2
function_of fast_request_frame = func_base + 3

unfoldable pub method_of : Ioctl → Method
method_of fast_request_frame = out_direct
method_of _ = buffered

-- `CTL_CODE` for video devices and any access. The function has 12 bits of its own in the code.
pub record CtlCode : Type 0 where
  pub code : ℕ → Method → ℕ
  pub own_bits : (f g : ℕ) (m n : Method) → f < 2 ^ 12 → g < 2 ^ 12 → code f m ≡ code g n → f ≡ g

unfoldable pub ioctl_code : CtlCode → Ioctl → ℕ
unfolding function_of method_of
ioctl_code c o = c.code (function_of o) (method_of o)

-- The switch: which request a code is served as.
unfoldable pub case_of : CtlCode → ℕ → Option Ioctl
unfolding ioctl_code
case_of c n =
    if n == ioctl_code c monitor_connect
    then some monitor_connect
    else (if n == ioctl_code c monitor_disconnect
        then some monitor_disconnect
        else (if n == ioctl_code c request_frame then some request_frame else none))

-- The requests that have a case.
abbrev pub served_as : Ioctl → Option Ioctl
served_as fast_request_frame = none
served_as o = some o

-- The handler on a code, where the buffer is read as the request that the code names.
unfoldable pub evt_device_io_control :
    CtlCode → Doubles → (Hresult → ℕ) → AdapterContext → ℕ → (Ioctl → IoRequest) → Option Completed
unfolding case_of
evt_device_io_control c d code a n read = elim (case_of c n) [
  | none ↦ device_io_control d code a unknown_code
  | some o ↦ device_io_control d code a (read o)
]

bounded : (o : Ioctl) → function_of o < 2 ^ 12
unfolding function_of
bounded monitor_connect = omega arith
bounded monitor_disconnect = omega arith
bounded request_frame = omega arith
bounded fast_request_frame = omega arith

differ :
    (c : CtlCode) (o p : Ioctl)
    → function_of o ≢ function_of p
    → (ioctl_code c o == ioctl_code c p) ≡ false
unfolding ioctl_code
differ c o p n = elim (Bool-cases (ioctl_code c o == ioctl_code c p)) [
  | inl e ↦ absurd (
      n (
        c.own_bits (function_of o) (function_of p) (method_of o) (method_of p) (bounded o)
          (bounded p) ((==_iff (ioctl_code c o) (ioctl_code c p)).0 e)))
  | inr e ↦ e
]

equal : (n : ℕ) → (n == n) ≡ true
equal n = ground arith

case_of-ioctl_code : (c : CtlCode) (o : Ioctl) → case_of c (ioctl_code c o) ≡ served_as o
unfolding case_of function_of
case_of-ioctl_code c monitor_connect = rw (equal (ioctl_code c monitor_connect)) refl
case_of-ioctl_code c monitor_disconnect =
    rw
      (
        differ c monitor_disconnect monitor_connect (λ e. omega (arith, e)),
        equal (ioctl_code c monitor_disconnect),
      )
      refl
case_of-ioctl_code c request_frame =
    rw
      (
        differ c request_frame monitor_connect (λ e. omega (arith, e)),
        differ c request_frame monitor_disconnect (λ e. omega (arith, e)),
        equal (ioctl_code c request_frame),
      )
      refl
case_of-ioctl_code c fast_request_frame =
    rw
      (
        differ c fast_request_frame monitor_connect (λ e. omega (arith, e)),
        differ c fast_request_frame monitor_disconnect (λ e. omega (arith, e)),
        differ c fast_request_frame request_frame (λ e. omega (arith, e)),
      )
      refl

-- A request that is sent under the code of its name is served by the handler of that name, and by no other,
-- since the codes differ; the one under the name of a fast frame request is served as one that is not known.
pub evt_device_io_control-ioctl_code :
    (c : CtlCode) (d : Doubles) (code : Hresult → ℕ) (a : AdapterContext) (o : Ioctl)
    (read : Ioctl → IoRequest)
    → evt_device_io_control c d code a (ioctl_code c o) read
      ≡ device_io_control d code a (elim (served_as o) [ none ↦ unknown_code | some p ↦ read p ])
unfolding evt_device_io_control
evt_device_io_control-ioctl_code c d code a o read =
    rw (evt_device_io_control, case_of-ioctl_code c o) (ends o)
  where
    ends :
        (o : Ioctl)
        → elim (served_as o) [
          | none ↦ device_io_control d code a unknown_code
          | some p ↦ device_io_control d code a (read p)
        ]
          ≡ device_io_control d code a
              (elim (served_as o) [ none ↦ unknown_code | some p ↦ read p ])
    ends monitor_connect = refl
    ends monitor_disconnect = refl
    ends request_frame = refl
    ends fast_request_frame = refl
