-- ===== src/Usb/Devices.antt =====
-- The queue of the devices, and the reads of their settings.
use monidroid.Base.{
  ℕ, suc, ◌+◌, ◌-◌, ◌≡◌, refl, sym, ap, ◌∙◌, arith, Bool, true, false, Option, none, some, List, [],
  ◌∷◌, ◌++◌, length, append-nil, append_assoc, ◌==◌, if◌then◌else◌, Bool-cases, Option-cases, inl,
  inr,
}
use monidroid.Protocol.{protocol_port}
use monidroid.Usb.{
  AltSetting, check_settings, check_interfaces, check_configs, is_adb_device, UsbClientContext,
  UsbDevice, UsbServer, hotplug_callback, start_listening, handle_adb_device, handle_queue,
  handle_saved, hotplug, usb_rounds, usb_main,
}

-- The serial number of a device, which on Windows may also come from the Setup API.
abbrev pub known_serial : UsbDevice → Option (List ℕ)
known_serial dev = if dev.opens then some dev.serial else dev.setup_serial

-- The phones that listen after some devices, newest first.
abbrev pub listening : List UsbDevice → List UsbClientContext → List UsbClientContext
listening [] cs = cs
listening (dev ∷ ds) cs = listening ds (elim (known_serial dev) [
  | none ↦ cs
  | some serial ↦
      if dev.adb_code == 0 then (record { serial = serial; port = protocol_port }) ∷ cs else cs
])

handle_adb_device_lem :
    (s : UsbServer) (dev : UsbDevice)
    → handle_adb_device s dev ≡ record s { clients = listening (dev ∷ []) s.clients }
unfolding handle_adb_device start_listening
handle_adb_device_lem s dev = elim (Bool-cases dev.opens) [
  | inl e ↦ rw (handle_adb_device, e) (ground arith)
  | inr e ↦ elim (Option-cases dev.setup_serial) [
    | inl n ↦ rw (handle_adb_device, e, n) refl
    | inr (serial, n) ↦ rw (handle_adb_device, e, n) (ground arith)
  ]
]

handle_queue_lem :
    (ds : List UsbDevice) (s : UsbServer)
    → s.devices ≡ ds
    → handle_queue ds s
      ≡ record s { devices = []; clients = listening ds s.clients; refs = s.refs - length ds }
unfolding handle_queue
handle_queue_lem [] s e =
    ap (λ xs. record s { devices = xs }) e
    ∙ ap (λ r. record s { devices = []; clients = s.clients; refs = r }) (minus_zero s.refs)
  where
    minus_zero : (n : ℕ) → n ≡ n - 0
    minus_zero n = omega arith
handle_queue_lem (dev ∷ ds) s e =
    ap (λ s'. handle_queue ds (record s' { devices = ds; refs = s'.refs - 1 }))
      (handle_adb_device_lem s dev)
    ∙ handle_queue_lem ds
        (record s { devices = ds; clients = listening (dev ∷ []) s.clients; refs = s.refs - 1 })
        refl
    ∙ ap (λ r. record s { devices = []; clients = listening (dev ∷ ds) s.clients; refs = r })
        (minus_suc s.refs (length ds))
  where
    minus_suc : (n m : ℕ) → n - 1 - m ≡ n - suc m
    minus_suc n m = omega arith

-- The devices of a round that are told of as ADB devices, in order.
abbrev pub found : List (UsbDevice × Bool) → List UsbDevice
found [] = []
found ((dev, is_adb) ∷ ds) = if is_adb then dev ∷ found ds else found ds

hotplug_lem :
    (ds : List (UsbDevice × Bool)) (s : UsbServer)
    → hotplug ds s ≡ record s { devices = s.devices ++ found ds; refs = s.refs + length (found ds) }
unfolding hotplug hotplug_callback
hotplug_lem [] s =
    ap (λ xs. record s { devices = xs }) (sym (append-nil s.devices))
    ∙ ap (λ r. record s { devices = s.devices ++ []; refs = r }) (omega arith)
hotplug_lem ((dev, true) ∷ ds) s =
    hotplug_lem ds (record s { devices = s.devices ++ (dev ∷ []); refs = s.refs + 1 })
    ∙ ap (λ xs. record s { devices = xs; refs = s.refs + 1 + length (found ds) })
        (append_assoc s.devices (dev ∷ []) (found ds))
    ∙ ap (λ r. record s { devices = s.devices ++ (dev ∷ found ds); refs = r }) (omega arith)
hotplug_lem ((dev, false) ∷ ds) s = hotplug_lem ds s

-- The phones that listen after some rounds.
abbrev pub listened : List (List (UsbDevice × Bool)) → List UsbClientContext → List UsbClientContext
listened [] cs = cs
listened (ds ∷ rounds) cs = listened rounds (listening (found ds) cs)

-- A server between two rounds: no device waits, and no reference is held.
abbrev between : Bool → List UsbClientContext → UsbServer
between b cs = record { running = b; devices = []; clients = cs; refs = 0 }

rounds_lem :
    (rounds : List (List (UsbDevice × Bool))) (b : Bool) (cs : List UsbClientContext)
    → usb_rounds rounds (between b cs) ≡ between b (listened rounds cs)
unfolding usb_rounds handle_saved
rounds_lem [] b cs = refl
rounds_lem (ds ∷ rounds) b cs =
    ap (usb_rounds rounds) one ∙ rounds_lem rounds b (listening (found ds) cs)
  where
    none_left : (n : ℕ) → 0 + n - n ≡ 0
    none_left n = omega arith

    one : handle_saved (hotplug ds (between b cs)) ≡ between b (listening (found ds) cs)
    one =
        ap handle_saved (hotplug_lem ds (between b cs))
        ∙ handle_queue_lem (found ds)
            (record { running = b; devices = found ds; clients = cs; refs = 0 + length (found ds) })
            refl
        ∙ ap
            (λ r. record { running = b; devices = []; clients = listening (found ds) cs; refs = r })
            (none_left (length (found ds)))

-- Whenever the server's thread waits for events, it has handled every device that it has been told of, in
-- order, exactly once: no device is queued, the reference to each has been given back, and the phones that
-- listen are those for which `adb` succeeded, of those that could be opened or, on Windows, whose serial number
-- the Setup API finds.
pub usb_main_handles :
    (rounds : List (List (UsbDevice × Bool))) (s : UsbServer)
    → s.refs ≡ length s.devices
    → usb_main rounds s ≡ record s {
      devices = [];
      clients = listened rounds (listening s.devices s.clients);
      refs = 0;
    }
unfolding usb_main handle_saved
usb_main_handles rounds s e =
    ap (usb_rounds rounds) (
      handle_queue_lem s.devices s refl
      ∙ ap (λ r. record s { devices = []; clients = listening s.devices s.clients; refs = r })
          (omega (arith, e)))
    ∙ rounds_lem rounds s.running (listening s.devices s.clients)

past_the_end :
    (y : List AltSetting) (a : AltSetting) (r : Bool)
    → y ≡ a ∷ []
    → check_settings 1 (length y) y r ≡ none
unfolding check_settings
past_the_end y a r e = rw e refl

past_from_one :
    (y : List AltSetting) (is : List (List AltSetting)) (a : AltSetting) (r : Bool)
    → y ≡ a ∷ []
    → check_interfaces 1 (y ∷ is) r ≡ none
unfolding check_interfaces
past_from_one y is a r e = rw (past_the_end y a r e, check_interfaces) refl

past_from_zero :
    (x y : List AltSetting) (is : List (List AltSetting)) (a : AltSetting) (o : Option Bool)
    → y ≡ a ∷ []
    → check_settings 0 (length x) x false ≡ o
    → check_interfaces 0 (x ∷ y ∷ is) false ≡ none
unfolding check_interfaces
past_from_zero x y is a none e h = rw (h, check_interfaces) refl
past_from_zero x y is a (some r) e h = rw (h, check_interfaces) (past_from_one y is a r e)

configs_past :
    (is : List (List AltSetting)) (rest : List (Option (List (List AltSetting))))
    → check_interfaces 0 is false ≡ none
    → check_configs (some is ∷ rest) false ≡ none
unfolding check_configs
configs_past is rest e = rw (e, check_configs) refl

-- Where the second interface of the first configuration has one setting, it is read past its end, whatever
-- the other settings are: the test of such a device has no result.
pub is_adb_device_reads_past :
    (x y : List AltSetting) (is : List (List AltSetting))
    (rest : List (Option (List (List AltSetting)))) (a : AltSetting) (rc : ℕ)
    → y ≡ a ∷ []
    → is_adb_device (some (some (x ∷ y ∷ is) ∷ rest)) rc ≡ none
unfolding is_adb_device
is_adb_device_reads_past x y is rest a rc e =
    rw (configs_past (x ∷ y ∷ is) rest (past_from_zero x y is a _ e refl), is_adb_device) refl
