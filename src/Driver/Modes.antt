-- ===== src/Driver/Modes.antt =====
-- iddcx-driver/Main.cpp: the callbacks that report the modes of a monitor to the OS.
pub mod RoundTrip
pub mod Buffers
use monidroid.Base.{
  ℕ, zero, suc, ◌+◌, ◌*◌, ◌/◌, ◌%◌, List, Option, none, some, bit_or, ltb, ◌==◌, if◌then◌else◌,
  get_or, set, length, u32,
}
use monidroid.Edid.Data.{MonitorMode, DetailedTiming, h_blank}
use monidroid.Edid.Custom.{custom_edid_modes}
use monidroid.Driver.Status.{Status, success, buffer_too_small}

-- `DISPLAYCONFIG_VIDEO_SIGNAL_INFO`
pub record SignalInfo : Type 0 where
  pub pixel_rate : ℕ
  pub h_sync_numerator : ℕ
  pub h_sync_denominator : ℕ
  pub v_sync_numerator : ℕ
  pub v_sync_denominator : ℕ
  pub active_width : ℕ
  pub active_height : ℕ
  pub total_width : ℕ
  pub total_height : ℕ
  pub video_standard : ℕ
  pub v_sync_freq_divider : ℕ

-- The products are made in `u32`.
unfoldable pub make_signal_info : MonitorMode → ℕ → SignalInfo
make_signal_info mode divider = record {
  pixel_rate = u32 (u32 (mode.width * mode.height) * mode.refresh_rate);
  h_sync_numerator = u32 (mode.refresh_rate * mode.height);
  h_sync_denominator = 1;
  v_sync_numerator = mode.refresh_rate;
  v_sync_denominator = 1;
  active_width = mode.width;
  active_height = mode.height;
  total_width = mode.width;
  total_height = mode.height;
  video_standard = 255;
  v_sync_freq_divider = divider;
}

pub data Origin : Type 0 where
  monitor_descriptor driver : Origin

-- An element of the OS's buffer: `IDDCX_MONITOR_MODE`, and `IDDCX_TARGET_MODE`, which has no origin.
pub data ModeEntry : Type 0 where
  monitor_mode : Origin → SignalInfo → ModeEntry
  target_mode : SignalInfo → ModeEntry

-- What a callback can write: the count, the preferred index and the OS's buffer. The buffer has
-- `...BufferInputCount` elements.
pub record ModesOut : Type 0 where
  pub output_count : ℕ
  pub preferred_idx : ℕ
  pub buffer : List ModeEntry

-- `dataBlocks[0].timing` of the block of bytes that the OS hands over.
unfoldable pub timing_at : List ℕ → DetailedTiming
timing_at p = record {
  pixel_clock = get_or p 54 0 + get_or p 55 0 * 256;
  hactive_lo = get_or p 56 0;
  hblank_lo = get_or p 57 0;
  hactive_hblank_hi = get_or p 58 0;
  vactive_lo = get_or p 59 0;
  vblank_lo = get_or p 60 0;
  vactive_vblank_hi = get_or p 61 0;
  hsync_offset_lo = get_or p 62 0;
  hsync_width_lo = get_or p 63 0;
  vsync_offset_width_lo = get_or p 64 0;
  hsync_vsync_offset_width_hi = get_or p 65 0;
  width_mm_lo = get_or p 66 0;
  height_mm_lo = get_or p 67 0;
  width_height_mm_hi = get_or p 68 0;
  hborder = get_or p 69 0;
  vborder = get_or p 70 0;
  misc = get_or p 71 0;
}

-- `preferred`; `(x & 0xF0u) << 4` is `x / 16 % 16 * 256`. A division by zero, which is undefined, is
-- `none`.
unfoldable pub preferred_mode : DetailedTiming → Option MonitorMode
preferred_mode t =
    let v_blank = bit_or t.vblank_lo (t.vactive_vblank_hi % 16 * 256) in
    let width = bit_or t.hactive_lo (t.hactive_hblank_hi / 16 % 16 * 256) in
    let height = bit_or t.vactive_lo (t.vactive_vblank_hi / 16 % 16 * 256) in
    let pixels = u32 (u32 (width + h_blank) * u32 (height + v_blank)) in
    if pixels == 0
    then none
    else some (record {
      width = width;
      height = height;
      refresh_rate = u32 (t.pixel_clock * 10_000) / pixels;
    })

-- `i == 0 ? preferred : CUSTOM_EDID_MODES[i]`
unfoldable pub mode_at : MonitorMode → ℕ → MonitorMode
mode_at preferred i = if i == 0 then preferred else get_or custom_edid_modes i preferred

abbrev pub modes_count : ℕ
modes_count = length custom_edid_modes

-- The loop over the last `n` of the modes, from index `i` on.
unfoldable pub fill : (ℕ → ModeEntry) → ℕ → ℕ → List ModeEntry → List ModeEntry
fill entry zero i buffer = buffer
fill entry (suc n) i buffer = fill entry n (i + 1) (set buffer i (entry i))

-- The answer where the OS's buffer is too short.
abbrev too_short : ℕ → Status
too_short input_count = if ltb 0 input_count then buffer_too_small else success

-- `MdEvtParseMonitorDescription`; `none` is the undefined division.
unfoldable pub parse_monitor_description : List ℕ → ModesOut → Option (Status × ModesOut)
unfolding preferred_mode mode_at fill
parse_monitor_description pdata out =
    if ltb (length out.buffer) modes_count
    then some (too_short (length out.buffer), record out { output_count = modes_count })
    else elim (preferred_mode (timing_at pdata)) [
      | none ↦ none
      | some preferred ↦ some (
        success,
        record out {
          buffer =
              fill (λ i. monitor_mode monitor_descriptor (make_signal_info (mode_at preferred i) 0))
                modes_count 0 out.buffer;
          preferred_idx = 0;
        },
      )
    ]

-- `MdEvtMonitorGetDefaultDescriptionModes`, for the monitor's preferred mode.
unfoldable pub get_default_description_modes : MonitorMode → ModesOut → Status × ModesOut
unfolding mode_at fill
get_default_description_modes preferred out =
    let out' = record out { output_count = modes_count } in
    if ltb (length out.buffer) modes_count then (too_short (length out.buffer), out') else (
      success,
      record out' {
        buffer =
            fill (λ i. monitor_mode driver (make_signal_info (mode_at preferred i) 0)) modes_count 0
              out.buffer;
        preferred_idx = 0;
      },
    )

-- `MdEvtMonitorQueryTargetModes`, for the monitor's preferred mode.
unfoldable pub query_target_modes : MonitorMode → ModesOut → Status × ModesOut
unfolding mode_at fill
query_target_modes preferred out =
    let out' = record out { output_count = modes_count } in
    if ltb (length out.buffer) modes_count then (too_short (length out.buffer), out') else (
      success,
      record out' {
        buffer =
            fill (λ i. target_mode (make_signal_info (mode_at preferred i) 1)) modes_count 0
              out.buffer;
      },
    )
