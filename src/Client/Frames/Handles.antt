-- ===== src/Client/Frames/Handles.antt =====
-- What becomes of the turbojpeg handles of `sendFullFrame`.
use monidroid.Base.{
  ℕ, zero, suc, ◌+◌, ◌≡◌, refl, ◌∙◌, ap, arith, Bool, true, false, none, replicate,
}
use monidroid.Native.{FrameStatus}
use monidroid.Client.Data.{Client, streaming}
use monidroid.Client.Frames.Limits.{loop_on}
use monidroid.Client.Frames.{
  Round, Frames, round, frame_event, on_status, send_full_frame, frame_loop, start_frames,
  send_frames,
}

-- A round in which a frame is there and mapped, and cannot be compressed.
abbrev pub uncompressed : Bool → Round
uncompressed failed = record {
  status = FrameStatus.frame_ready;
  mapped = true;
  jpeg = none;
  write_failed = failed;
}

dropped :
    (failed : Bool) (s : Frames)
    → s.frame_fails ≡ 0
    → s.map_fails ≡ 0
    → frame_event s (round (uncompressed failed)) ≡ record s { unfreed = s.unfreed + 1 }
unfolding frame_event on_status send_full_frame
dropped failed s f m = ground arith

loop_uncompressed :
    (k : ℕ) (failed : Bool) (s : Frames)
    → s.client.state ≡ streaming
    → s.frame_fails ≡ 0
    → s.map_fails ≡ 0
    → frame_loop (replicate k (round (uncompressed failed))) s
      ≡ (record s { unfreed = s.unfreed + k }, false)
loop_uncompressed zero failed s st f m = unfold frame_loop in ground arith
loop_uncompressed (suc k) failed s st f m =
    let e : s.unfreed + 1 + k ≡ s.unfreed + suc k = omega arith in
    loop_on _ _ s st
    ∙ ap (frame_loop (replicate k (round (uncompressed failed)))) (dropped failed s f m)
    ∙ loop_uncompressed k failed (record s { unfreed = s.unfreed + 1 }) st f m
    ∙ ap (λ n. (record s { unfreed = n }, false)) e

-- Frames that cannot be compressed are dropped, and nothing ends the stream however many there are: the
-- client is sent nothing, no failure is counted, and each of them leaves a handle and a buffer behind.
pub send_frames-uncompressed :
    (k : ℕ) (failed : Bool) (c : Client)
    → send_frames (replicate k (round (uncompressed failed))) c
      ≡ (record (start_frames c) { unfreed = k }, false)
unfolding send_frames start_frames
send_frames-uncompressed k failed c =
    loop_uncompressed k failed (start_frames c) refl refl refl
    ∙ ap (λ n. (record (start_frames c) { unfreed = n }, false)) k_eq
  where
    k_eq : 0 + k ≡ k
    k_eq = omega arith
