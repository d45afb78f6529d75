-- ===== src/Driver/Modes/RoundTrip.antt =====
-- The preferred mode survives the way through the EDID block.
use native.Mathlib.Nat.{div-eq_of_eq-mul_left, div-lt_iff_lt-mul, mod-eq_of_lt}
use monidroid.Base.{
  ℕ, ◌+◌, ◌*◌, ◌/◌, ◌%◌, ◌^◌, ◌≤◌, ◌<◌, ◌≡◌, ◌≢◌, ap, ◌∙◌, arith, some, bit_or, or_above_byte, u16,
  u32,
}
use monidroid.Edid.Data.{
  MonitorMode, MonitorMode, DetailedTiming, raw, body_bytes, prefix_bytes, vendor_bytes,
  features_bytes, color_bytes, est_timings_bytes, standard_bytes, blocks_bytes, h_blank,
}
use monidroid.Edid.Custom.{custom_edid}
use monidroid.Edid.Mode.{Doubles, v_blank, v_offset, mode_timing, set_default_mode}
use monidroid.Edid.Commit.{commit}
use monidroid.Edid.Timing.{hactive_hi, vactive_hi}
use monidroid.Driver.Modes.{timing_at, preferred_mode}

-- The rate that the driver works out from a clock in units of 10 kHz over `p` pixels a frame.
rate_bounds :
    (p hz : ℕ)
    → 10_000 ≤ p
    → (p * hz / 10_000 * 10_000 / p ≤ hz) × (hz ≤ p * hz / 10_000 * 10_000 / p + 1)
rate_bounds p hz h = grind arith

rate_exact : (p hz : ℕ) → 0 < p → p * hz % 10_000 ≡ 0 → p * hz / 10_000 * 10_000 / p ≡ hz
rate_exact p hz h e = div-eq_of_eq-mul_left h (omega arith)

rate_lost : (p hz : ℕ) → 10_000 ≤ p → p * hz % 10_000 ≢ 0 → p * hz / 10_000 * 10_000 / p + 1 ≡ hz
rate_lost p hz h e = grind (arith, rate_bounds p hz, below)
  where
    below : p * hz / 10_000 * 10_000 / p < hz
    below = (div-lt_iff_lt-mul (omega arith)).1 (omega arith)

clock-lt : (w h hz b o : ℕ) → (mode_timing w h hz b o).pixel_clock < 2 ^ 16
unfolding mode_timing
clock-lt w h hz b o = omega arith

-- The timing that the driver reads is the one that the server wrote.
block_timing :
    (d : Doubles) (w h hz : ℕ)
    → timing_at (raw (commit (set_default_mode d custom_edid w h hz)))
      ≡ mode_timing w h hz (v_blank d h hz) (v_offset d h hz)
unfolding timing_at raw commit body_bytes prefix_bytes vendor_bytes features_bytes color_bytes
    est_timings_bytes standard_bytes blocks_bytes set_default_mode
block_timing d w h hz = λ i. record t { pixel_clock = clock i }
  where
    t : DetailedTiming
    t = mode_timing w h hz (v_blank d h hz) (v_offset d h hz)

    clock : t.pixel_clock % 256 + t.pixel_clock / 256 % 256 * 256 ≡ t.pixel_clock
    clock = omega (arith, clock-lt w h hz (v_blank d h hz) (v_offset d h hz))

-- A low byte and the next four bits make the number.
join_field : (n lo hi : ℕ) → n < 4096 → lo ≡ n % 256 → hi ≡ n / 256 → bit_or lo (hi * 256) ≡ n
join_field n lo hi h e f = rw (e, f) (omega (arith, or_above_byte (n % 256) (n / 256)))

product-lt : (a b : ℕ) → a < 4176 → b < 8192 → a * b < 2 ^ 32
product-lt a b ha hb = grind arith

-- `u32` and `u16` cut the clock; what is left of it gives the rate.
clock : ℕ → ℕ → ℕ → ℕ → ℕ
clock w h hz b = u16 (u32 ((w + h_blank) * (h + b) * hz) / 10_000)

module _ (w h hz b o : ℕ) (hw : w < 4096) (hh : h < 4096) (hb : b < 4096) where
  abbrev t : DetailedTiming
  t = mode_timing w h hz b o

  width_back : bit_or t.hactive_lo (t.hactive_hblank_hi / 16 % 16 * 256) ≡ w
  unfolding mode_timing
  width_back = join_field w _ _ hw (omega arith) (omega (arith, hactive_hi w h hz b o))

  height_back : bit_or t.vactive_lo (t.vactive_vblank_hi / 16 % 16 * 256) ≡ h
  unfolding mode_timing
  height_back = join_field h _ _ hh (omega arith) (omega (arith, vactive_hi w h hz b o))

  blank_back : bit_or t.vblank_lo (t.vactive_vblank_hi % 16 * 256) ≡ b
  unfolding mode_timing
  blank_back = join_field b _ _ hb (omega arith) (omega (arith, vactive_hi w h hz b o))

  pixels : u32 (u32 (w + h_blank) * u32 (h + b)) ≡ (w + h_blank) * (h + b)
  pixels = rw (mod-eq_of_lt {n = w + h_blank} {m = 2 ^ 32} (omega arith)) (
      rw (mod-eq_of_lt {n = h + b} {m = 2 ^ 32} (omega arith))
        (mod-eq_of_lt (product-lt (w + h_blank) (h + b) (omega arith) (omega arith))))

  clock_back : t.pixel_clock ≡ clock w h hz b
  unfolding mode_timing clock
  clock_back = rw pixels

  clock_fits : clock w h hz b * 10_000 < 2 ^ 32
  unfolding clock
  clock_fits = omega arith

  read_back :
      0 < (w + h_blank) * (h + b)
      → preferred_mode t
        ≡ some (record {
          width = w;
          height = h;
          refresh_rate = clock w h hz b * 10_000 / ((w + h_blank) * (h + b));
        })
  unfolding preferred_mode
  read_back pos =
      rw (width_back, height_back, blank_back, pixels, clock_back, mod-eq_of_lt clock_fits)
        (ground arith)

-- The preferred mode that the driver reads out of the block that `setDefaultMode` and `commit` have
-- written, for a screen below 4096 x 4096 with a vertical blanking below 4096, at least 10000 pixels a
-- frame with blanking, and a pixel clock that fits its 16 bits: the size is the client's, and the rate is
-- the client's if the pixel rate is a whole multiple of 10 kHz, and one less if it is not.
pub preferred_mode-set_default_mode :
    (d : Doubles) (w h hz : ℕ)
    → w < 4096
    → h < 4096
    → v_blank d h hz < 4096
    → 10_000 ≤ (w + h_blank) * (h + v_blank d h hz)
    → (w + h_blank) * (h + v_blank d h hz) * hz < 655_360_000
    → let rate = (w + h_blank) * (h + v_blank d h hz) * hz in
      (r : ℕ) × (preferred_mode (timing_at (raw (commit (set_default_mode d custom_edid w h hz))))
        ≡ some (record { width = w; height = h; refresh_rate = r }))
      × (rate % 10_000 ≡ 0 → r ≡ hz)
      × (rate % 10_000 ≢ 0 → r + 1 ≡ hz)
preferred_mode-set_default_mode d w h hz hw hh hb many fits = (
  p * hz / 10_000 * 10_000 / p,
  rw (block_timing d w h hz) (
      read_back w h hz b (v_offset d h hz) hw hh hb (omega arith) ∙ ap some (ap rated clock_whole)),
  rate_exact p hz (omega arith),
  rate_lost p hz many,
)
  where
    b : ℕ
    b = v_blank d h hz

    p : ℕ
    p = (w + h_blank) * (h + b)

    rated : ℕ → MonitorMode
    rated c = record { width = w; height = h; refresh_rate = c * 10_000 / p }

    clock_whole : clock w h hz b ≡ p * hz / 10_000
    clock_whole = unfold clock in omega arith
