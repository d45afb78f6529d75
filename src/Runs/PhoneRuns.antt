-- ===== src/Runs/PhoneRuns.antt =====
-- Runs of the servers that find the phones.
use monidroid.Base.{◌≡◌, refl, none, some, true, false, [], ◌∷◌}
use monidroid.Protocol.{cl_echo_word, protocol_port}
use monidroid.Echo.{EchoServer}
use monidroid.Usb.{AltSetting, UsbDevice, usb_main}
use monidroid.Usb.Devices.{usb_main_handles}
use monidroid.Runs.Samples.{pixel, pix}

abbrev echo : EchoServer
echo = record {
  started = true;
  receiving = true;
  echo_message = pixel;
  recvbuf = cl_echo_word;
  sent = [];
}

abbrev phone : UsbDevice
phone = record { opens = true; serial = pixel; setup_serial = none; adb_code = 0 }

abbrev locked : UsbDevice
locked = record { opens = false; serial = []; setup_serial = some pix; adb_code = 0 }

usb_main_handles_example :
    usb_main
      (((phone, true) ∷ (locked, true) ∷ []) ∷ [])
      (record { running = true; devices = phone ∷ []; clients = []; refs = 1 })
    ≡ record {
      devices = [];
      clients =
          (record { serial = pix; port = protocol_port })
          ∷ (record { serial = pixel; port = protocol_port })
          ∷ (record { serial = pixel; port = protocol_port })
          ∷ [];
      refs = 0;
      running = true;
    }
usb_main_handles_example =
    usb_main_handles (((phone, true) ∷ (locked, true) ∷ []) ∷ [])
      (record { running = true; devices = phone ∷ []; clients = []; refs = 1 }) refl

abbrev adb : AltSetting
adb = record { interface_class = 255; interface_sub_class = 66; interface_protocol = 1 }

abbrev mtp : AltSetting
mtp = record { interface_class = 6; interface_sub_class = 1; interface_protocol = 1 }
