-- ===== src/Runs/EvdiRuns.antt =====
-- Runs of the Linux monitors.
use monidroid.Server.Data.{Server, contains}
use monidroid.Server.Main.{communication_main, over}
use monidroid.Evdi.Phones.{phone, visit, Served, communication_main-Served}
use monidroid.Base.{ℕ, false, true, ◌≤◌, ◌≡◌, refl, arith, Bool, List, [], ◌∷◌, some, leb}
use monidroid.Evdi.Data.{Request, ready, polled, dpms, mode, update, on, off}
use monidroid.Client.Data.{Client, streaming}
use monidroid.Client.Send.{force_disconnect, new_client}
use monidroid.Client.Frames.{send_frames, disconnect_monitor}
use monidroid.Client.Input.{InputEvent, mouse_move, mouse_buttons, mouse_scroll}
use monidroid.Evdi.Uinput.{send_inputs, refused, scrolled, send_inputs-scrolled}
use monidroid.Evdi.Streams.{rounds_of, IsCalm, shown, send_frames-shown}
use monidroid.Evdi.Monitor.{handle_events, dpms_handler, status_of, monitor_request_frame}
use monidroid.Evdi.Adapter.{
  dev_no_threshold, AdapterContext, new_monitor, adapter_connect_monitor,
  adapter_connect_monitor_first,
}
use monidroid.Evdi.Buffer.{Fits, requests, requests_fit}
use monidroid.Runs.Samples.{pixel, full_hd}

abbrev two_cards : AdapterContext
two_cards = record { next_number = 2 }

abbrev from_three : ℕ → Bool
from_three k = leb 3 k

adapter_connect_monitor_first_example :
    let (a', m) = adapter_connect_monitor from_three two_cards pixel full_hd 64 in
    (m ≡ some (new_monitor 3 pixel full_hd 64))
    × (a'.next_number ≡ 4)
    × (a'.next_number ≤ dev_no_threshold)
adapter_connect_monitor_first_example =
    (adapter_connect_monitor_first from_three two_cards pixel full_hd 64 (omega arith)).1 3
      (omega arith) (omega arith) refl (λ j h h'. ground arith)

abbrev some_requests : List Request
some_requests =
    ready 0
    ∷ polled (
        dpms on
        ∷ mode (record { width = 2560; height = 1440; refresh_rate = 60 }) 128
        ∷ update 3
        ∷ [])
    ∷ []

requests_fit_example : Fits (requests some_requests (new_monitor 3 pixel full_hd 64))
requests_fit_example =
    requests_fit some_requests 3 pixel full_hd 64
      (record { pixels = omega arith; bytes = omega arith })
      ((record { pixels = omega arith; bytes = omega arith }, tt), tt)

-- A change of the mode, a frame, and a monitor that is off.
abbrev answers : List (Request × List ℕ)
answers = (ready 0, pixel) ∷ (ready 2, pixel) ∷ (polled (dpms off ∷ []), []) ∷ []

answers-IsCalm : IsCalm answers (new_monitor 3 pixel full_hd 64) 0 0
unfolding monitor_request_frame handle_events dpms_handler status_of
answers-IsCalm =
    (omega arith, omega arith, (omega arith, omega arith, (omega arith, omega arith, tt)))

send_frames-shown_example :
    let m = new_monitor 3 pixel full_hd 64 in
    let (s, left) = send_frames (rounds_of answers m) new_client in
    (s.client ≡ shown answers m (record new_client { state = streaming }))
    × (s.unfreed ≡ 0)
    × (left ≡ false)
send_frames-shown_example =
    send_frames-shown answers (new_monitor 3 pixel full_hd 64) new_client answers-IsCalm

-- A movement, a scroll and a click.
abbrev gestures : List InputEvent
gestures = mouse_move 3 4 ∷ mouse_scroll 2 ∷ mouse_buttons 1 ∷ []

send_inputs-scrolled_example :
    let m = new_monitor 3 pixel full_hd 64 in
    refused (send_inputs gestures m).reports ≡ scrolled gestures (refused m.reports)
send_inputs-scrolled_example = send_inputs-scrolled gestures (new_monitor 3 pixel full_hd 64)

abbrev visited : Server
visited = record {
  running = true;
  accepting = true;
  contexts =
      record { id = 0; address = []; connected_at = 0; client = new_client; joinable = true } ∷ [];
  clients = [];
  current_id = 1;
  notices = [];
}

communication_main-Served_example :
    let m = new_monitor 3 pixel full_hd 64 in
    let live : Client = record (phone false pixel 1920 1080 60) {
      monitor = some 7;
      state = streaming;
    } in
    (s' : Server) × (communication_main visited 0 new_client
        (visit false pixel 1920 1080 60 7 answers m)
      ≡ over s')
    × Served visited 0 (disconnect_monitor (force_disconnect (shown answers m live) true)) s'
communication_main-Served_example =
    communication_main-Served visited 0 false pixel 1920 1080 60 7 answers
      (new_monitor 3 pixel full_hd 64) (unfold contains in refl) (omega arith) (omega arith)
      (omega arith) (omega arith) (omega arith) answers-IsCalm
