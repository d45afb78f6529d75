-- ===== src/Runs/DriverRuns.antt =====
-- Runs of the EDID block and of the driver.
use monidroid.Base.{
  zero, suc, ℕ, ◌+◌, ◌*◌, ◌%◌, ◌≡◌, ◌≢◌, ◌<◌, refl, arith, List, [], ◌∷◌, ◌++◌, replicate, none,
  some, true, false, get_elem?,
}
use monidroid.Edid.Data.{raw, body_bytes, h_blank}
use monidroid.Edid.Custom.{custom_edid}
use monidroid.Edid.Mode.{vbi_lines, v_blank, set_default_mode}
use monidroid.Edid.Commit.{commit}
use monidroid.Edid.Checksum.{total, commit-total}
use monidroid.Driver.Modes.{make_signal_info, target_mode, timing_at, preferred_mode, ModesOut}
use monidroid.Driver.Modes.RoundTrip.{preferred_mode-set_default_mode}
use monidroid.Driver.Monitor.{FrameMonitorInfo, MonitorProcessor, RequestEnd}
use monidroid.Driver.Adapter.{
  AdapterContext, new_adapter, plug_in, with_monitor, find_monitor, AdapterMonitorInfo, empty_slot,
  connect_monitor,
}
use monidroid.Driver.Adapter.Validity.{Plugged}
use monidroid.Driver.Ioctl.{IoRequest, monitor_connect, request_frame, Completed, device_io_control}
use monidroid.Driver.Ioctl.Served.{serve, AllNew, serve-request_frame}
use monidroid.Runs.Samples.{fixed_point, full_hd}

blank_lines : v_blank fixed_point 1080 60 ≡ 31
unfolding v_blank vbi_lines
blank_lines = refl

commit-total_example :
    (total (raw (commit (set_default_mode fixed_point custom_edid 1920 1080 60))) % 256 ≡ 0)
    × ((commit (set_default_mode fixed_point custom_edid 1920 1080 60)).checksum < 256)
    × (body_bytes (commit (set_default_mode fixed_point custom_edid 1920 1080 60))
        ≡ body_bytes (set_default_mode fixed_point custom_edid 1920 1080 60))
commit-total_example = commit-total (set_default_mode fixed_point custom_edid 1920 1080 60)

preferred_mode-set_default_mode_example :
    let rate = (1920 + h_blank) * (1080 + v_blank fixed_point 1080 60) * 60 in
    (r : ℕ) × (preferred_mode
        (timing_at (raw (commit (set_default_mode fixed_point custom_edid 1920 1080 60))))
      ≡ some (record { width = 1920; height = 1080; refresh_rate = r }))
    × (rate % 10_000 ≡ 0 → r ≡ 60)
    × (rate % 10_000 ≢ 0 → r + 1 ≡ 60)
preferred_mode-set_default_mode_example =
    preferred_mode-set_default_mode fixed_point 1920 1080 60 (omega arith) (omega arith)
      (omega (arith, blank_lines)) (omega (arith, blank_lines)) (omega (arith, blank_lines))

abbrev buffer : ModesOut
buffer = record {
  output_count = 0;
  preferred_idx = 7;
  buffer = replicate 20 (target_mode (make_signal_info full_hd 3));
}

abbrev block : List ℕ
block = replicate 56 100 ++ (128 ∷ 24 ∷ 113 ∷ 56 ∷ 40 ∷ 64 ∷ replicate 66 0)

block_mode :
    preferred_mode (timing_at block)
    ≡ some (record { width = 1920; height = 1080; refresh_rate = 114 })
unfolding preferred_mode timing_at
block_mode = refl

abbrev adapter : AdapterContext
adapter = record {
  connected_monitors = some 40 ∷ none ∷ some 42 ∷ replicate 13 none;
  monitors = [];
}

abbrev screen : AdapterMonitorInfo
screen = record { width = 1920; height = 1080; hertz = 60; connector_index = 9; adapter_luid = 0 }

second_slot : empty_slot adapter.connected_monitors < 16
unfolding empty_slot
second_slot = omega arith

abbrev processor : MonitorProcessor
processor = record {
  running = true;
  stop_event = false;
  frame_ready_event = false;
  frame_requested = true;
  current_frame = none;
  frame_number = 0;
}

abbrev asked : FrameMonitorInfo
asked = record {
  frame_handle = none;
  enabled = false;
  frame_number = 0;
  mode = record { width = 0; height = 0; refresh_rate = 0 };
}

-- A monitor is plugged in, in the first slot.
abbrev plugging : List IoRequest
plugging =
    monitor_connect screen
      (record { created = some 50; create_status = 0; arrived = some 8; arrival_status = 0 })
    ∷ []

abbrev plugged : AdapterContext
plugged = with_monitor new_adapter 0 50 screen

plugging-AllNew : AllNew fixed_point (λ _. 0) plugging new_adapter
unfolding new_adapter
plugging-AllNew = ((λ i h e p. nowhere 16 i h p), λ c e. tt)
  where
    nowhere : (n i h : ℕ) → get_elem? (replicate n none) i ≡ some (some h) → ⊥
    nowhere zero i h p = cc p
    nowhere (suc n) zero h p = cc p
    nowhere (suc n) (suc i) h p = nowhere n i h p

plugging-served : serve fixed_point (λ _. 0) plugging new_adapter ≡ some plugged
unfolding serve device_io_control connect_monitor plug_in empty_slot new_adapter
plugging-served = refl

serve-request_frame_example :
    ((i j h : ℕ) → Plugged plugged i h → Plugged plugged j h → i ≡ j)
    × ((i h : ℕ) (info : FrameMonitorInfo) (end : RequestEnd)
        → Plugged plugged i h
        → (c : Completed) × (device_io_control fixed_point
              (λ _. 0)
              plugged
              (request_frame i info end)
            ≡ some c)
          × (c.adapter.connected_monitors ≡ plugged.connected_monitors)
          × ((j k : ℕ)
              → i ≢ j
              → Plugged plugged j k
              → find_monitor k c.adapter.monitors ≡ find_monitor k plugged.monitors))
serve-request_frame_example =
    serve-request_frame fixed_point (λ _. 0) plugging plugged plugging-AllNew plugging-served
