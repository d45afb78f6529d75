-- ===== src/Usb/Windows.antt =====
-- server/usbserver.cpp on Windows, where a phone that libusb cannot open is looked up by the Setup API.
use monidroid.Base.{ℕ, ◌&&◌, ◌==◌, Option, none, some, List, [], ◌∷◌, if◌then◌else◌}

-- What `swscanf` makes of the id of a device's parent: the numbers of the vendor and the product, and the
-- serial number; `none` where the id is not read or has another form.
abbrev pub ParsedId : Type 0
ParsedId = Option (ℕ × ℕ × List ℕ)

unfoldable pub parsed_serial : ℕ → ℕ → ParsedId → Option (List ℕ)
parsed_serial vid pid none = none
parsed_serial vid pid (some (v, p, serial)) = if v == vid && p == pid then some serial else none

-- `GetSerialNumberByVidPid`, over the devices that are there.
unfoldable pub serial_by_vid_pid : ℕ → ℕ → List ParsedId → Option (List ℕ)
unfolding parsed_serial
serial_by_vid_pid vid pid [] = none
serial_by_vid_pid vid pid (d ∷ ds) = elim (parsed_serial vid pid d) [
  | none ↦ serial_by_vid_pid vid pid ds
  | some serial ↦ some serial
]
