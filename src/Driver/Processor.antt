-- ===== src/Driver/Processor.antt =====
-- iddcx-driver/Monitor.cpp: the thread of a monitor's processor.
use monidroid.Base.{◌≡◌, ℕ, Bool, true, false, Option, none, some, List, [], ◌∷◌, if◌then◌else◌}
use monidroid.Driver.Monitor.{MonitorProcessor}

-- How the wait for a new buffer ends.
pub data WaitEnd : Type 0 where
  new_frame timeout stop failed : WaitEnd

-- What a round meets: no buffer yet, and how the wait ends; a buffer with a frame number, the copy of its
-- texture if one could be made, and whether the framework takes the end of the processing; or an error.
pub data Acquire : Type 0 where
  pending : WaitEnd → Acquire
  acquired : ℕ → Option ℕ → Bool → Acquire
  error : Acquire

-- `CopyFrame`. A texture that cannot be made leaves the pointer null.
unfoldable pub copy_frame : ℕ → Option ℕ → MonitorProcessor → MonitorProcessor
copy_frame n none p = record p { current_frame = none }
copy_frame n (some t) p = record p { current_frame = some t; frame_number = n }

-- A wanted frame is copied and announced.
unfoldable pub serve : ℕ → Option ℕ → MonitorProcessor → MonitorProcessor
unfolding copy_frame
serve n texture p =
    if p.frame_requested
    then record (copy_frame n texture p) { frame_requested = false; frame_ready_event = true }
    else p

-- The end of `ThreadProc`.
unfoldable pub end_thread : MonitorProcessor → MonitorProcessor
end_thread p = record p { stop_event = true; running = false }

-- The loop of `StartPrivate`, with the end of the thread that runs it.
unfoldable pub processor_loop : List Acquire → MonitorProcessor → MonitorProcessor
unfolding serve end_thread
processor_loop [] p = p
processor_loop (pending WaitEnd.new_frame ∷ rounds) p = processor_loop rounds p
processor_loop (pending WaitEnd.timeout ∷ rounds) p = processor_loop rounds p
processor_loop (pending _ ∷ rounds) p = end_thread p
processor_loop (acquired n texture finished ∷ rounds) p =
    let rest = processor_loop rounds (serve n texture p) in
    if finished then rest else end_thread (serve n texture p)
processor_loop (error ∷ rounds) p = end_thread p

-- The rounds that find no buffer and go on.
abbrev pub Idle : Acquire → Type 0
Idle (pending WaitEnd.new_frame) = Unit {0}
Idle (pending WaitEnd.timeout) = Unit {0}
Idle _ = ⊥

-- The rounds after which the loop goes on.
abbrev pub GoesOn : Acquire → Type 0
GoesOn (acquired n texture finished) = finished ≡ true
GoesOn r = Idle r
