-- ===== src/Usb.antt =====
-- server/usbserver.cpp: the phones that are plugged in.
pub mod Devices
pub mod Windows
use monidroid.Base.{
  ℕ, zero, suc, ◌+◌, ◌*◌, ◌-◌, Bool, true, false, ◌||◌, Option, none, some, List, [], ◌∷◌, ◌++◌,
  get_elem?, length, ◌==◌, if◌then◌else◌,
}
use monidroid.Protocol.{adb_if_class, adb_mtp_if_class, protocol_port}

-- An alternate setting of an interface.
pub record AltSetting : Type 0 where
  pub interface_class : ℕ
  pub interface_sub_class : ℕ
  pub interface_protocol : ℕ

-- The test of one setting. The class and its parts are bytes, so that the parts do not overlap.
unfoldable pub is_adb_setting : AltSetting → Bool
is_adb_setting a =
    let if_id = a.interface_class * 65_536 + a.interface_sub_class * 256 + a.interface_protocol in
    if_id == adb_if_class || if_id == adb_mtp_if_class || a.interface_class == 255

-- The inner loop over the settings of interface `i`, for `n` more of them: every round reads the setting
-- number `i`. `none` where that is out of range.
unfoldable pub check_settings : ℕ → ℕ → List AltSetting → Bool → Option Bool
unfolding is_adb_setting
check_settings i zero alts result = some result
check_settings i (suc n) alts result = elim (get_elem? alts i) [
  | none ↦ none
  | some a ↦ check_settings i n alts (result || is_adb_setting a)
]

-- The loop over the interfaces of a configuration, from number `i` on.
unfoldable pub check_interfaces : ℕ → List (List AltSetting) → Bool → Option Bool
unfolding check_settings
check_interfaces i [] result = some result
check_interfaces i (alts ∷ is) result = elim (check_settings i (length alts) alts result) [
  | none ↦ none
  | some r ↦ check_interfaces (i + 1) is r
]

-- The loop over the configurations; `none` is one that cannot be read.
unfoldable pub check_configs : List (Option (List (List AltSetting))) → Bool → Option Bool
unfolding check_interfaces
check_configs [] result = some result
check_configs (none ∷ cs) result = check_configs cs result
check_configs (some is ∷ cs) result = elim (check_interfaces 0 is result) [
  | none ↦ none
  | some r ↦ check_configs cs r
]

-- `isAdbDevice`: the result and the error code, which is success in the end.
unfoldable pub is_adb_device :
    Option (List (Option (List (List AltSetting)))) → ℕ → Option (Bool × ℕ)
unfolding check_configs
is_adb_device none rc = some (false, rc)
is_adb_device (some configs) rc = elim (check_configs configs false) [
  | none ↦ none
  | some r ↦ some (r, 0)
]

-- `struct UsbClientContext`
pub record UsbClientContext : Type 0 where
  pub serial : List ℕ
  pub port : ℕ

-- What `handleAdbDevice` meets at a device: whether it can be opened, its serial number, and what `adb`
-- returns; and for a device that cannot be opened the serial number that the Setup API of Windows finds, `none`
-- if it finds none, and on Linux, where such a device is left.
pub record UsbDevice : Type 0 where
  pub opens : Bool
  pub serial : List ℕ
  pub setup_serial : Option (List ℕ)
  pub adb_code : ℕ

-- `class UsbServer`: the queue, first device first, the set of clients, newest first, and how many
-- references to devices are held.
pub record UsbServer : Type 0 where
  pub running : Bool
  pub devices : List UsbDevice
  pub clients : List UsbClientContext
  pub refs : ℕ

-- `hotplugCallback`, for a device and what `isAdbDevice` says of it.
unfoldable pub hotplug_callback : UsbServer → UsbDevice → Bool → UsbServer
hotplug_callback s dev is_adb =
    if is_adb then record s { devices = s.devices ++ (dev ∷ []); refs = s.refs + 1 } else s

unfoldable pub start_listening : UsbServer → List ℕ → ℕ → UsbServer
start_listening s serial code =
    if code == 0
    then record s { clients = (record { serial = serial; port = protocol_port }) ∷ s.clients }
    else s

unfoldable pub handle_adb_device : UsbServer → UsbDevice → UsbServer
unfolding start_listening
handle_adb_device s dev =
    if dev.opens
    then start_listening s dev.serial dev.adb_code
    else elim dev.setup_serial [ none ↦ s | some serial ↦ start_listening s serial dev.adb_code ]

-- `handleSaved`
unfoldable pub handle_queue : List UsbDevice → UsbServer → UsbServer
unfolding handle_adb_device
handle_queue [] s = s
handle_queue (dev ∷ ds) s =
    let s' = handle_adb_device s dev in
    handle_queue ds (record s' { devices = ds; refs = s'.refs - 1 })

unfoldable pub handle_saved : UsbServer → UsbServer
unfolding handle_queue
handle_saved s = handle_queue s.devices s

-- `usbMain`: the devices that were there first, and then rounds, each with the devices that it is told of.
unfoldable pub hotplug : List (UsbDevice × Bool) → UsbServer → UsbServer
unfolding hotplug_callback
hotplug [] s = s
hotplug ((dev, is_adb) ∷ ds) s = hotplug ds (hotplug_callback s dev is_adb)

unfoldable pub usb_rounds : List (List (UsbDevice × Bool)) → UsbServer → UsbServer
unfolding hotplug handle_saved
usb_rounds [] s = s
usb_rounds (ds ∷ rounds) s = usb_rounds rounds (handle_saved (hotplug ds s))

unfoldable pub usb_main : List (List (UsbDevice × Bool)) → UsbServer → UsbServer
unfolding usb_rounds handle_saved
usb_main rounds s = usb_rounds rounds (handle_saved s)

-- The constructor: whether `adb` is found on the path or beside the program, and whether the platform tells
-- of devices. `none` is an exception. The devices that are there already are enumerated at once, before the
-- thread starts.
unfoldable pub new_usb_server : Bool → Bool → Bool → List (UsbDevice × Bool) → Option UsbServer
unfolding hotplug
new_usb_server on_path beside hotplugs present =
    if on_path || beside
    then (if hotplugs
        then some
            (hotplug present (record { running = true; devices = []; clients = []; refs = 0 }))
        else none)
    else none

-- The destructor: the thread ends and is joined.
unfoldable pub close_usb_server : UsbServer → UsbServer
close_usb_server s = record s { running = false }
