-- ===== src/Runs/ClientRuns.antt =====
-- Runs of a client.
use monidroid.Base.{
  List, ◌++◌, inl, ◌≡◌, ◌⊎◌, refl, arith, true, false, [], ◌∷◌, map, replicate, none,
}
use monidroid.Native.{FrameStatus, md_success}
use monidroid.Protocol.{error_value, monitor_connect_fail, bytes_eq}
use monidroid.Client.Data.{Client, ClientState}
use monidroid.Client.Send.{send_frame_message, send_monitor_off, send_error, send_error_message}
use monidroid.Client.Send.Wire.{frame, code, text, Writes, read_message-sent}
use monidroid.Client.Identify.{received, returned, identify_client}
use monidroid.Client.Identify.Handshake.{greeting, settings}
use monidroid.Client.Identify.Sound.{Whole, Nameless, bytes_of, identify_client_sound}
use monidroid.Client.Identify.Complete.{identify_client_hello}
use monidroid.Client.Frames.{
  Round, FrameEvent, round, frame_event, frame_loop, on_status, on_error, start_frames, send_frames,
}
use monidroid.Client.Frames.Limits.{send_frames_fails}
use monidroid.Client.Input.{mouse_move, mouse_buttons, ended, receive_main}
use monidroid.Client.Input.Laws.{input, unknown, packets_bytes, receive_main-packets_bytes}
use monidroid.Runs.Samples.{fresh, pixel, el}

identify_client_hello_example :
    identify_client
      (received (greeting true pixel) ∷ received pixel ∷ received (settings 1081 1921 60) ∷ [])
      fresh
    ≡ returned true
        (record fresh {
          is_usb = true;
          model_name = pixel;
          preffered = record { width = 1920; height = 1080; refresh_rate = 60 };
          state = ClientState.identified;
          net_buffer = [];
        })
        []
identify_client_hello_example =
    identify_client_hello fresh true pixel 1081 1921 60 [] refl (omega arith) (omega arith)
      (omega arith) (omega arith) (omega arith)

identify_client_sound_example :
    let reads =
      received (greeting true pixel) ∷ received pixel ∷ received (settings 1081 1921 60) ∷ [] in
    let c' : Client = (record fresh {
      is_usb = true;
      model_name = pixel;
      preffered = record { width = 1920; height = 1080; refresh_rate = 60 };
      state = ClientState.identified;
      net_buffer = [];
    }) in
    Whole fresh (bytes_of reads) c' ⊎ Nameless fresh (bytes_of reads) c'
identify_client_sound_example =
    identify_client_sound
      (received (greeting true pixel) ∷ received pixel ∷ received (settings 1081 1921 60) ∷ [])
      fresh _ refl identify_client_hello_example

receive_main-packets_bytes_example :
    receive_main
      (replicate 4 true)
      (packets_bytes (input (mouse_move 500 7) ∷ unknown pixel ∷ input (mouse_buttons 3) ∷ []))
    ≡ (mouse_move 500 7 ∷ mouse_buttons 3 ∷ [], ended)
receive_main-packets_bytes_example =
    receive_main-packets_bytes
      (input (mouse_move 500 7) ∷ unknown pixel ∷ input (mouse_buttons 3) ∷ [])
      (omega arith, omega arith, (refl, (unfold bytes_eq in refl), (omega arith, tt)))

abbrev bad_round : Round
bad_round = record { status = FrameStatus.error; mapped = false; jpeg = none; write_failed = false }

-- Two failures, nothing new, and two failures again.
abbrev quiet_round : Round
quiet_round = record {
  status = FrameStatus.no_updates;
  mapped = false;
  jpeg = none;
  write_failed = false;
}

abbrev two_fail : List FrameEvent
two_fail = round bad_round ∷ round bad_round ∷ []

md_fails : md_success FrameStatus.error ≡ false
unfolding md_success
md_fails = refl

goes_on : (send_frames two_fail fresh).1 ≡ false
unfolding send_frames frame_loop frame_event on_status on_error start_frames
goes_on = refl

send_frames_fails_example :
    send_frames (two_fail ++ (round quiet_round ∷ map round (bad_round ∷ bad_round ∷ []))) fresh ≡ (
      record (frame_event (send_frames two_fail fresh).0 (round quiet_round)) { frame_fails = 2 },
      false,
    )
send_frames_fails_example =
    (send_frames_fails two_fail quiet_round (bad_round ∷ bad_round ∷ []) [] fresh goes_on (inl refl)
        (md_fails, (md_fails, tt))).0
      (omega arith)

read_message-sent_example :
    Writes fresh (send_frame_message fresh pixel true) (frame pixel)
    × Writes fresh (send_monitor_off fresh true) (frame [])
    × Writes fresh (send_error fresh monitor_connect_fail) (code (error_value monitor_connect_fail))
    × Writes fresh (send_error_message fresh el) (text el)
read_message-sent_example =
    read_message-sent fresh pixel el monitor_connect_fail true (omega arith) (omega arith) (λ e. cc)
