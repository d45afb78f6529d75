-- ===== src/Client/Frames/Limits.antt =====
-- When `sendFrames` gives up.
use monidroid.Base.{
  ◌+◌, ◌<◌, ◌≡◌, ◌≢◌, refl, sym, ◌∙◌, ap, arith, List, [], ◌∷◌, ◌++◌, map, Bool, true, false, ◌⊎◌,
  length, append-nil, int_bytes, inl, inr,
}
use monidroid.Native.{FrameStatus, md_success}
use monidroid.Protocol.{error_value, too_many_fails, sv_error_word}
use monidroid.Client.Data.{Client, ClientState, streaming, error}
use monidroid.Client.Send.{write, send_monitor_off, send_error}
use monidroid.Client.Frames.{
  Round, Frames, on_error, on_status, FrameEvent, round, frame_event, is_streaming, give_up,
  frame_loop, start_frames, send_frames,
}

-- While it streams, the loop has seen fewer failures in a row than it takes to give up.
pub record IsPatient (s : Frames) : Type 0 where
  pub frame_patience : s.client.state ≡ streaming → s.frame_fails < 15
  pub map_patience : s.client.state ≡ streaming → s.map_fails < 10

streaming_cases :
    (st : ClientState)
    → ((is_streaming st ≡ true) × (st ≡ streaming)) ⊎ ((is_streaming st ≡ false) × (st ≢ streaming))
streaming_cases ClientState.new = inr (refl, λ e. cc)
streaming_cases streaming = inl (refl, refl)
streaming_cases _ = inr (refl, λ e. cc)

-- A loop that is left does not stream; one that is not left streams and is patient.
abbrev Outcome : Frames × Bool → Type 0
Outcome (s, left) =
    (left ≡ true → s.client.state ≢ streaming)
    × (left ≡ false → (s.client.state ≡ streaming) × (s.frame_fails < 15) × (s.map_fails < 10))

-- The rounds of which each got a failed answer to the frame request.
abbrev pub AllFail : List Round → Type 0
AllFail [] = Unit {0}
AllFail (r ∷ rs) = (md_success r.status ≡ false) × AllFail rs

on_status-fail :
    (st : FrameStatus) (s : Frames) (r : Round)
    → md_success st ≡ false
    → on_status st s r ≡ on_error s
unfolding md_success on_status
on_status-fail FrameStatus.error s r h = refl
on_status-fail FrameStatus.frame_ready s r h = cc
on_status-fail FrameStatus.no_updates s r h = cc
on_status-fail FrameStatus.mode_changed s r h = cc
on_status-fail FrameStatus.monitor_off s r h = cc
on_status-fail _ s r h = refl

pub loop_on :
    (e : FrameEvent) (events : List FrameEvent) (s : Frames)
    → s.client.state ≡ streaming
    → frame_loop (e ∷ events) s ≡ frame_loop events (frame_event s e)
unfolding frame_loop
loop_on e events s st = rw st

counted :
    (s : Frames) (r : Round)
    → md_success r.status ≡ false
    → s.frame_fails + 1 < 15
    → frame_event s (round r) ≡ record s { frame_fails = s.frame_fails + 1 }
unfolding frame_event
counted s r f h = on_status-fail r.status s r f ∙ (unfold on_error in ground arith)

-- Failures that do not reach the limit are only counted.
count_fails :
    (rs : List Round) (more : List FrameEvent) (s : Frames)
    → AllFail rs
    → s.client.state ≡ streaming
    → s.frame_fails + length rs < 15
    → frame_loop (map round rs ++ more) s
      ≡ frame_loop more (record s { frame_fails = s.frame_fails + length rs })
count_fails [] more s f st h =
    let e : s.frame_fails ≡ s.frame_fails + 0 = omega arith in
    ap (λ k. frame_loop more (record s { frame_fails = k })) e
count_fails (r ∷ rs) more s f st h =
    loop_on (round r) (map round rs ++ more) s st
    ∙ ap (frame_loop (map round rs ++ more)) (counted s r f.0 (omega arith))
    ∙ count_fails rs more (record s { frame_fails = s.frame_fails + 1 }) f.1 st (omega arith)
    ∙ ap (λ k. frame_loop more (record s { frame_fails = k })) (omega arith)

loop_off :
    (events : List FrameEvent) (s : Frames)
    → s.client.state ≡ error
    → frame_loop events s ≡ (s, true)
unfolding frame_loop
loop_off [] s e = rw e
loop_off (x ∷ events) s e = rw e

given_up :
    (s : Frames) (r : Round)
    → md_success r.status ≡ false
    → s.frame_fails + 1 ≡ 15
    → frame_event s (round r) ≡ record s { frame_fails = 15; client = give_up s.client }
unfolding frame_event
given_up s r f h = on_status-fail r.status s r f ∙ (unfold on_error in ground arith)

last_fail :
    (rs : List Round) (more : List FrameEvent) (s : Frames)
    → AllFail rs
    → s.client.state ≡ streaming
    → 0 < length rs
    → s.frame_fails + length rs ≡ 15
    → frame_loop (map round rs ++ more) s
      ≡ (record s { frame_fails = 15; client = give_up s.client }, true)
last_fail [] more s f st pos h = absurd (omega arith)
last_fail (r ∷ []) more s f st pos h =
    loop_on (round r) more s st
    ∙ ap (frame_loop more) (given_up s r f.0 (omega arith))
    ∙ loop_off more _ refl
last_fail (r ∷ r' ∷ rs) more s f st pos h =
    loop_on (round r) (map round (r' ∷ rs) ++ more) s st
    ∙ ap (frame_loop (map round (r' ∷ rs) ++ more)) (counted s r f.0 (omega arith))
    ∙ last_fail (r' ∷ rs) more (record s { frame_fails = s.frame_fails + 1 }) f.1 st (omega arith)
        (omega arith)

-- A round that is answered without a frame, and no failure: nothing new, or a monitor that is off, of which
-- the client is told.
abbrev pub Quiet : Round → Type 0
Quiet r =
    (r.status ≡ FrameStatus.no_updates)
    ⊎ ((r.status ≡ FrameStatus.monitor_off) × (r.write_failed ≡ false))

quiet_lem :
    (s : Frames) (r : Round)
    → Quiet r
    → s.client.state ≡ streaming
    → ((frame_event s (round r)).frame_fails ≡ 0)
      × ((frame_event s (round r)).client.state ≡ streaming)
unfolding frame_event on_status send_monitor_off write
quiet_lem s r (inl e) st = rw e (refl, st)
quiet_lem s r (inr (e, w)) st = (
  ap (λ z. (on_status z s r).frame_fails) e,
  ap (λ z. (on_status z s r).client.state) e ∙ ap (λ z. (send_monitor_off s.client z).state) w ∙ st,
)

streams_on :
    (events : List FrameEvent) (s : Frames)
    → (frame_loop events s).1 ≡ false
    → (frame_loop events s).0.client.state ≡ streaming
unfolding frame_loop
streams_on [] s h = elim (streaming_cases s.client.state) [
  | inl (on, st) ↦ rw on st
  | inr (off, st) ↦ let k : (frame_loop [] s).1 ≡ true = rw (frame_loop, off) refl in cc (k, h)
]
streams_on (x ∷ events) s h = elim (streaming_cases s.client.state) [
  | inl (on, st) ↦
      let e = loop_on x events s st in
      ap (λ (z : Frames × Bool). z.0.client.state) e
      ∙ streams_on events (frame_event s x) (ap (λ (z : Frames × Bool). z.1) (sym e) ∙ h)
  | inr (off, st) ↦
      let k : (frame_loop (x ∷ events) s).1 ≡ true = rw (frame_loop, off) refl in cc (k, h)
]

-- The loop over two lists of events one after the other, when it is not left in the first.
pub frame_loop-append :
    (xs ys : List FrameEvent) (s : Frames)
    → (frame_loop xs s).1 ≡ false
    → frame_loop (xs ++ ys) s ≡ frame_loop ys (frame_loop xs s).0
unfolding frame_loop
frame_loop-append [] ys s h = elim (streaming_cases s.client.state) [
  | inl (on, st) ↦ rw on refl
  | inr (off, st) ↦ let k : (frame_loop [] s).1 ≡ true = rw (frame_loop, off) refl in cc (k, h)
]
frame_loop-append (x ∷ xs) ys s h = elim (streaming_cases s.client.state) [
  | inl (on, st) ↦
      let e = loop_on x xs s st in
      loop_on x (xs ++ ys) s st
      ∙ frame_loop-append xs ys (frame_event s x) (ap (λ (z : Frames × Bool). z.1) (sym e) ∙ h)
      ∙ ap (λ (z : Frames × Bool). frame_loop ys z.0) (sym e)
  | inr (off, st) ↦
      let k : (frame_loop (x ∷ xs) s).1 ≡ true = rw (frame_loop, off) refl in cc (k, h)
]

still_streams : (s : Frames) → s.client.state ≡ streaming → frame_loop [] s ≡ (s, false)
unfolding frame_loop
still_streams s st = rw st refl

-- Whatever a stream has met that it has not ended by, the count of the failures starts again after an answer
-- that there is nothing new or, if the client can be told so, that the monitor is off. Fewer than 15 failures in a row after it change nothing
-- but the count, and the stream goes on; the fifteenth ends it: the client gets one error message with the
-- code for too many failures, the socket is shut down and the state is `Error`; the later events are not
-- looked at.
pub send_frames_fails :
    (before : List FrameEvent) (r : Round) (rs : List Round) (more : List FrameEvent) (c : Client)
    → (send_frames before c).1 ≡ false
    → Quiet r
    → AllFail rs
    → let s = frame_event (send_frames before c).0 (round r) in
      (length rs < 15
        → send_frames (before ++ (round r ∷ map round rs)) c
          ≡ (record s { frame_fails = length rs }, false))
      × (length rs ≡ 15
          → send_frames (before ++ (round r ∷ (map round rs ++ more))) c ≡ (
            record s {
              frame_fails = 15;
              client = record s.client {
                state = error;
                sent = (sv_error_word ++ int_bytes (error_value too_many_fails)) ∷ s.client.sent;
                shut = true;
              };
            },
            true,
          ))
unfolding send_frames
send_frames_fails before r rs more c b q f = (
  λ h.
      ap (λ es. frame_loop (before ++ (round r ∷ es)) (start_frames c))
        (sym (append-nil (map round rs)))
      ∙ reached (map round rs ++ [])
      ∙ count_fails rs [] s f streams (omega (arith, zeroed))
      ∙ still_streams (record s { frame_fails = s.frame_fails + length rs }) streams
      ∙ ap (λ k. (record s { frame_fails = k }, false)) (omega (arith, zeroed)),
  λ h.
      reached (map round rs ++ more)
      ∙ last_fail rs more s f streams (omega arith) (omega (arith, zeroed))
      ∙ ap (λ x. (record s { frame_fails = 15; client = x }, true)) (gone s.client),
)
  where
    s0 : Frames
    s0 = (frame_loop before (start_frames c)).0

    s : Frames
    s = frame_event s0 (round r)

    on : s0.client.state ≡ streaming
    on = streams_on before (start_frames c) b

    zeroed : s.frame_fails ≡ 0
    zeroed = (quiet_lem s0 r q on).0

    streams : s.client.state ≡ streaming
    streams = (quiet_lem s0 r q on).1

    reached :
        (es : List FrameEvent)
        → frame_loop (before ++ (round r ∷ es)) (start_frames c) ≡ frame_loop es s
    reached es =
        frame_loop-append before (round r ∷ es) (start_frames c) b ∙ loop_on (round r) es s0 on

    gone :
        (x : Client)
        → give_up x ≡ record x {
          state = error;
          sent = (sv_error_word ++ int_bytes (error_value too_many_fails)) ∷ x.sent;
          shut = true;
        }
    gone x = unfold send_error write in refl
