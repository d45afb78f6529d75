-- ===== src/Evdi/Streams.antt =====
-- server/client.cpp on server/linux/evdi.cpp: the frame loop of a client whose monitor is one of EVDI.
use monidroid.Base.{
  ℕ, ◌+◌, ◌<◌, ◌≡◌, ◌∙◌, ap, refl, arith, Bool, true, false, none, some, List, [], ◌∷◌,
}
use monidroid.Native.{FrameStatus, FrameMapInfo}
use monidroid.Client.Data.{Client, streaming}
use monidroid.Client.Send.{write, send_frame_message, send_monitor_off}
use monidroid.Client.Frames.{
  Round, Frames, on_frame, on_error, on_status, send_full_frame, FrameEvent, round, frame_event,
  frame_loop, start_frames, send_frames,
}
use monidroid.Client.Frames.Limits.{loop_on}
use monidroid.Evdi.Data.{MonitorContext, Request}
use monidroid.Evdi.Monitor.{monitor_request_frame, monitor_map_current}
use monidroid.Evdi.Status.{Promise, monitor_request_frame_status}

abbrev pub is_mapped : FrameMapInfo → Bool
is_mapped info = elim info.pixels [ none ↦ false | some _ ↦ true ]

-- The rounds that the loop meets: each asks the monitor for a frame, and then maps the current one. The
-- compressions and the writes succeed.
abbrev pub round_of : MonitorContext → FrameStatus → List ℕ → Round
round_of m st jpeg = record {
  status = st;
  mapped = is_mapped (monitor_map_current m);
  jpeg = some jpeg;
  write_failed = false;
}

unfoldable pub rounds_of : List (Request × List ℕ) → MonitorContext → List FrameEvent
rounds_of [] m = []
rounds_of ((r, jpeg) ∷ rs) m =
    let (m', st) = monitor_request_frame r m in round (round_of m' st jpeg) ∷ rounds_of rs m'

-- What the client is sent for an answer of the monitor, and for all of them.
abbrev pub message : FrameStatus → List ℕ → Client → Client
message FrameStatus.frame_ready jpeg c = send_frame_message c jpeg false
message FrameStatus.monitor_off jpeg c = send_monitor_off c false
message _ jpeg c = c

abbrev pub shown : List (Request × List ℕ) → MonitorContext → Client → Client
shown [] m c = c
shown ((r, jpeg) ∷ rs) m c =
    let (m', st) = monitor_request_frame r m in shown rs m' (message st jpeg c)

-- Fewer than 15 failed requests in a row after `f` of them, and fewer than 10 changes of the mode without a
-- frame between them after `k` of them.
abbrev next_fails : FrameStatus → ℕ → ℕ
next_fails FrameStatus.frame_ready f = 0
next_fails FrameStatus.no_updates f = 0
next_fails FrameStatus.mode_changed f = 0
next_fails FrameStatus.monitor_off f = 0
next_fails _ f = f + 1

abbrev next_changes : FrameStatus → ℕ → ℕ
next_changes FrameStatus.frame_ready k = 0
next_changes FrameStatus.mode_changed k = k + 1
next_changes _ k = k

abbrev pub IsCalm : List (Request × List ℕ) → MonitorContext → (f k : ℕ) → Type 0
IsCalm [] m f k = Unit {0}
IsCalm ((r, jpeg) ∷ rs) m f k =
    let (m', st) = monitor_request_frame r m in
    (next_fails st f < 15)
    × (next_changes st k < 10)
    × IsCalm rs m' (next_fails st f) (next_changes st k)

abbrev after : FrameStatus → List ℕ → Frames → Frames
after st jpeg s = record s {
  client = message st jpeg s.client;
  frame_fails = next_fails st s.frame_fails;
  map_fails = next_changes st s.map_fails;
}

with_frame :
    (b : Bool) (st : FrameStatus) (jpeg : List ℕ) (s : Frames)
    → b ≡ true
    → on_frame s (record { status = st; mapped = b; jpeg = some jpeg; write_failed = false })
      ≡ after FrameStatus.frame_ready jpeg s
unfolding on_frame send_full_frame
with_frame b st jpeg s e = rw (on_frame, e) refl

without_frame :
    (b : Bool) (st : FrameStatus) (jpeg : List ℕ) (s : Frames)
    → b ≡ false
    → s.map_fails + 1 < 10
    → on_frame s (record { status = st; mapped = b; jpeg = some jpeg; write_failed = false })
      ≡ after FrameStatus.mode_changed jpeg s
unfolding on_frame
without_frame b st jpeg s e k = rw (on_frame, e) (ground arith)

impatient :
    (s : Frames)
    → s.frame_fails + 1 < 15
    → on_error s ≡ record s { frame_fails = s.frame_fails + 1 }
unfolding on_error
impatient s f = ground arith

step :
    (m : MonitorContext) (st : FrameStatus) (jpeg : List ℕ) (s : Frames)
    → Promise m st
    → next_fails st s.frame_fails < 15
    → next_changes st s.map_fails < 10
    → frame_event s (round (round_of m st jpeg)) ≡ after st jpeg s
unfolding frame_event on_status
step m FrameStatus.frame_ready jpeg s p f k =
    with_frame (is_mapped (monitor_map_current m)) FrameStatus.frame_ready jpeg s
      (ap is_mapped (p.frame refl))
step m FrameStatus.mode_changed jpeg s p f k =
    without_frame (is_mapped (monitor_map_current m)) FrameStatus.mode_changed jpeg s
      (unmapped (monitor_map_current m) (p.changed refl)) k
  where
    unmapped : (info : FrameMapInfo) → info.pixels ≡ none → is_mapped info ≡ false
    unmapped info e = rw (e) refl
step m FrameStatus.no_updates jpeg s p f k = refl
step m FrameStatus.monitor_off jpeg s p f k = refl
step m _ jpeg s p f k = impatient s f

pub message-state :
    (st : FrameStatus) (jpeg : List ℕ) (c : Client) → (message st jpeg c).state ≡ c.state
unfolding send_frame_message send_monitor_off write
message-state FrameStatus.frame_ready jpeg c = refl
message-state FrameStatus.monitor_off jpeg c = refl
message-state _ jpeg c = refl

-- The loop goes on, and its client is what the messages make of it.
pub loop_shown :
    (rs : List (Request × List ℕ)) (m : MonitorContext) (s : Frames)
    → s.client.state ≡ streaming
    → IsCalm rs m s.frame_fails s.map_fails
    → ((frame_loop (rounds_of rs m) s).0.client ≡ shown rs m s.client)
      × ((frame_loop (rounds_of rs m) s).0.unfreed ≡ s.unfreed)
      × ((frame_loop (rounds_of rs m) s).1 ≡ false)
unfolding rounds_of frame_loop
loop_shown [] m s on calm = rw (on) (refl, refl, refl)
loop_shown ((r, jpeg) ∷ rs) m s on (f, k, calm) =
    let (m', st) = monitor_request_frame r m in
    let e =
      loop_on (round (round_of m' st jpeg)) (rounds_of rs m') s on
      ∙ ap (frame_loop (rounds_of rs m'))
          (step m' st jpeg s (monitor_request_frame_status r m) f k) in
    let (a, b, c) = loop_shown rs m' (after st jpeg s) (message-state st jpeg s.client ∙ on) calm in
    (
      ap (λ (x : Frames × Bool). x.0.client) e ∙ a,
      ap (λ (x : Frames × Bool). x.0.unfreed) e ∙ b,
      ap (λ (x : Frames × Bool). x.1) e ∙ c,
    )

-- A client with a monitor of EVDI, where compression and writing succeed: as long as fewer than 15 requests in
-- a row fail, and the mode changes fewer than ten times without a frame in between, it is streamed to and is
-- sent exactly one frame for each answer that a frame is ready, which can always be mapped, and one message
-- for each answer that the monitor is off, in the order of the answers; and what turbojpeg allocates is freed.
pub send_frames-shown :
    (rs : List (Request × List ℕ)) (m : MonitorContext) (c : Client)
    → IsCalm rs m 0 0
    → let (s, left) = send_frames (rounds_of rs m) c in
      (s.client ≡ shown rs m (record c { state = streaming })) × (s.unfreed ≡ 0) × (left ≡ false)
unfolding send_frames start_frames
send_frames-shown rs m c calm = loop_shown rs m (start_frames c) refl calm
