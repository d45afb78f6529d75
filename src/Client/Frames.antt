-- ===== src/Client/Frames.antt =====
-- server/client.cpp: `Client::sendFrames` and `sendFullFrame`, and `disconnectMonitor`.
pub mod Limits
pub mod Handles
use monidroid.Base.{
  ℕ, ◌+◌, List, [], ◌∷◌, Bool, true, false, Option, none, some, leb, if◌then◌else◌,
}
use monidroid.Native.{FrameStatus}
use monidroid.Protocol.{too_many_fails}
use monidroid.Client.Data.{Client, ClientState, streaming, disconnected, error}
use monidroid.Client.Send.{send_frame_message, send_monitor_off, send_error, force_disconnect}

-- What a round of the loop meets: the answer to the frame request, whether the frame could be mapped, the
-- compressed frame if the compression succeeded, and whether the write of the message failed.
pub record Round : Type 0 where
  pub status : FrameStatus
  pub mapped : Bool
  pub jpeg : Option (List ℕ)
  pub write_failed : Bool

-- The locals of `sendFrames`, and how many turbojpeg handles and buffers were made and not freed.
pub record Frames : Type 0 where
  pub client : Client
  pub frame_fails : ℕ
  pub map_fails : ℕ
  pub unfreed : ℕ

-- `sendFullFrame`. A failed compression returns before `tj3Free` and `tj3Destroy`.
unfoldable pub send_full_frame : Frames → Option (List ℕ) → Bool → Frames
send_full_frame s none failed = record s { unfreed = s.unfreed + 1 }
send_full_frame s (some jpeg) failed = record s { client = send_frame_message s.client jpeg failed }

abbrev pub give_up : Client → Client
give_up c = record (send_error c too_many_fails) { state = error }

-- The cases `ModeChanged` and `FrameReady`.
unfoldable pub on_frame : Frames → Round → Frames
unfolding send_full_frame
on_frame s r =
    let s' = record s { frame_fails = 0 } in
    if r.mapped
    then send_full_frame (record s' { map_fails = 0 }) r.jpeg r.write_failed
    else record s' {
      map_fails = s.map_fails + 1;
      client = if leb 10 (s.map_fails + 1) then give_up s.client else s.client;
    }

-- The default case.
unfoldable pub on_error : Frames → Frames
on_error s = record s {
  frame_fails = s.frame_fails + 1;
  client = if leb 15 (s.frame_fails + 1) then give_up s.client else s.client;
}

unfoldable pub on_status : FrameStatus → Frames → Round → Frames
unfolding on_frame on_error
on_status FrameStatus.mode_changed s r = on_frame s r
on_status FrameStatus.frame_ready s r = on_frame s r
on_status FrameStatus.no_updates s r = record s { frame_fails = 0 }
on_status FrameStatus.monitor_off s r = record s {
  frame_fails = 0;
  client = send_monitor_off s.client r.write_failed;
}
on_status _ s r = on_error s

-- A round of the loop, or a `forceDisconnect` of another thread between two rounds.
pub data FrameEvent : Type 0 where
  round : Round → FrameEvent
  forced : Bool → FrameEvent

unfoldable pub frame_event : Frames → FrameEvent → Frames
unfolding on_status
frame_event s (round r) = on_status r.status s r
frame_event s (forced with_error) = record s { client = force_disconnect s.client with_error }

abbrev pub is_streaming : ClientState → Bool
is_streaming streaming = true
is_streaming _ = false

-- The loop is left as soon as its test finds another state; `true` says that it has been left.
unfoldable pub frame_loop : List FrameEvent → Frames → Frames × Bool
frame_loop [] s = if is_streaming s.client.state then (s, false) else (s, true)
frame_loop (e ∷ events) s =
    let rest = frame_loop events (frame_event s e) in
    if is_streaming s.client.state then rest else (s, true)

unfoldable pub start_frames : Client → Frames
start_frames c = record {
  client = record c { state = streaming };
  frame_fails = 0;
  map_fails = 0;
  unfreed = 0;
}

unfoldable pub send_frames : List FrameEvent → Client → Frames × Bool
send_frames events c = frame_loop events (start_frames c)

-- `disconnectMonitor`: the monitor is released and the socket shut down.
unfoldable pub disconnect_monitor : Client → Client
disconnect_monitor c = record c { monitor = none; state = disconnected; shut = true }
