-- ===== src/Evdi/Buffer.antt =====
-- The frame buffer that a monitor shows to the client's thread.
use monidroid.Base.{
  ℕ, ◌*◌, ◌^◌, ◌<◌, ◌≤◌, u32, ltb, if◌then◌else◌, ◌≡◌, refl, arith, Bool-cases, inl, inr, ◌==◌,
  List, [], ◌∷◌,
}
use monidroid.Edid.Data.{MonitorMode}
use monidroid.Evdi.Data.{
  MonitorContext, EvdiEvent, dpms, mode, update, Request, ready, poll_failed, poll_timeout, polled,
  DpmsMode, on,
}
use monidroid.Evdi.Monitor.{
  alloc_frame_buffer, dpms_handler, mode_handler, update_handler, handle_events,
  monitor_request_frame,
}
use monidroid.Evdi.Adapter.{new_monitor}

-- The registered buffer is the frame buffer, its rows are as wide as the frame, and all of them lie within
-- the memory that was reserved, in bytes.
pub record Fits (m : MonitorContext) : Type 0 where
  pub same : m.frame_buffer_info.buffer ≡ m.frame_buffer
  pub row : m.frame_buffer_info.stride ≡ m.frame_buffer_info.width * 4
  pub rows : m.frame_buffer_info.width * m.frame_buffer_info.height ≤ m.capacity

dpms_handler-Fits : (d : DpmsMode) (m : MonitorContext) → Fits m → Fits (dpms_handler d m)
unfolding dpms_handler
dpms_handler-Fits on m f = record { same = f.same; row = f.row; rows = f.rows }
dpms_handler-Fits _ m f = record { same = f.same; row = f.row; rows = f.rows }

update_handler-Fits : (n : ℕ) (m : MonitorContext) → Fits m → Fits (update_handler n m)
unfolding update_handler
update_handler-Fits n m f = record { same = f.same; row = f.row; rows = f.rows }

-- A mode whose pixels and whose rows are counted by an `int` of 32 bits.
pub record IsCounted (m : MonitorMode) : Type 0 where
  pub pixels : m.width * m.height < 2 ^ 31
  pub bytes : m.width * 4 < 2 ^ 31

small : (n : ℕ) → n < 2 ^ 31 → u32 n ≡ n
small n h = omega arith

-- The size of a buffer that grows, or does not.
enough :
    (capacity size pixels : ℕ)
    → size ≡ pixels
    → pixels ≤ (if ltb capacity size then size else capacity)
enough capacity size pixels e = ground arith

alloc_frame_buffer-Fits :
    (m : MonitorContext) (new : MonitorMode) (address : ℕ)
    → IsCounted new
    → Fits (alloc_frame_buffer m new.width new.height address)
unfolding alloc_frame_buffer
alloc_frame_buffer-Fits m new address c = record {
  same = refl;
  row = small (new.width * 4) c.bytes;
  rows =
      enough m.capacity (u32 (new.width * new.height)) (new.width * new.height)
        (small (new.width * new.height) c.pixels);
}

mode_handler-Fits :
    (new : MonitorMode) (address : ℕ) (m : MonitorContext)
    → IsCounted new
    → Fits (mode_handler new address m)
unfolding mode_handler
mode_handler-Fits new address m c =
    alloc_frame_buffer-Fits
      (record m {
        current = record {
          width = u32 new.width;
          height = u32 new.height;
          refresh_rate = u32 new.refresh_rate;
        };
      })
      new address c

-- All the modes that the events and the requests change to.
abbrev pub AllCounted : List EvdiEvent → Type 0
AllCounted [] = Unit {0}
AllCounted (mode new address ∷ es) = IsCounted new × AllCounted es
AllCounted (_ ∷ es) = AllCounted es

abbrev pub RequestsCounted : List Request → Type 0
RequestsCounted [] = Unit {0}
RequestsCounted (polled es ∷ rs) = AllCounted es × RequestsCounted rs
RequestsCounted (_ ∷ rs) = RequestsCounted rs

handle_events-Fits :
    (es : List EvdiEvent) (m : MonitorContext) → AllCounted es → Fits m → Fits (handle_events es m)
unfolding handle_events
handle_events-Fits [] m c f = f
handle_events-Fits (dpms d ∷ es) m c f =
    handle_events-Fits es (dpms_handler d m) c (dpms_handler-Fits d m f)
handle_events-Fits (mode new address ∷ es) m c f =
    handle_events-Fits es (mode_handler new address m) c.1 (mode_handler-Fits new address m c.0)
handle_events-Fits (update n ∷ es) m c f =
    handle_events-Fits es (update_handler n m) c (update_handler-Fits n m f)

request-Fits :
    (r : Request) (m : MonitorContext)
    → RequestsCounted (r ∷ [])
    → Fits m
    → Fits (monitor_request_frame r m).0
unfolding monitor_request_frame
request-Fits (ready n) m c f = elim (Bool-cases (n == 0)) [
  | inl e ↦ rw e (record { same = f.same; row = f.row; rows = f.rows })
  | inr e ↦ rw e (record { same = f.same; row = f.row; rows = f.rows })
]
request-Fits poll_failed m c f = f
request-Fits poll_timeout m c f = f
request-Fits (polled es) m c f = handle_events-Fits es m c.0 f

-- The monitor after some requests.
abbrev pub requests : List Request → MonitorContext → MonitorContext
requests [] m = m
requests (r ∷ rs) m = requests rs (monitor_request_frame r m).0

first :
    (r : Request) (rs : List Request)
    → RequestsCounted (r ∷ rs)
    → RequestsCounted (r ∷ []) × RequestsCounted rs
first (ready n) rs c = (tt, c)
first poll_failed rs c = (tt, c)
first poll_timeout rs c = (tt, c)
first (polled es) rs c = ((c.0, tt), c.1)

requests-Fits :
    (rs : List Request) (m : MonitorContext) → RequestsCounted rs → Fits m → Fits (requests rs m)
requests-Fits [] m c f = f
requests-Fits (r ∷ rs) m c f =
    let (c1, cs) = first r rs c in
    requests-Fits rs (monitor_request_frame r m).0 cs (request-Fits r m c1 f)

new_monitor-Fits :
    (n : ℕ) (name : List ℕ) (info : MonitorMode) (address : ℕ)
    → IsCounted info
    → Fits (new_monitor n name info address)
unfolding new_monitor alloc_frame_buffer
new_monitor-Fits n name info address c = record {
  same = refl;
  row = small (info.width * 4) c.bytes;
  rows =
      enough 0 (u32 (info.width * info.height)) (info.width * info.height)
        (small (info.width * info.height) c.pixels);
}

-- Whatever updates and mode changes a new monitor has met, as long as the pixels and the bytes of a row of
-- every mode, its first one included, are counted by an `int` of 32 bits: the buffer that the module writes to
-- is the monitor's own, its rows are four bytes a pixel, and all of its rows lie in the reserved memory.
pub requests_fit :
    (rs : List Request) (n : ℕ) (name : List ℕ) (info : MonitorMode) (address : ℕ)
    → IsCounted info
    → RequestsCounted rs
    → Fits (requests rs (new_monitor n name info address))
requests_fit rs n name info address c cs =
    requests-Fits rs (new_monitor n name info address) cs (new_monitor-Fits n name info address c)
