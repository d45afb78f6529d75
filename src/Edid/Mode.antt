-- ===== src/Edid/Mode.antt =====
-- common/monidroid/edid.h: `EDID::setDefaultMode`.
use monidroid.Base.{
  ℕ, ◌+◌, ◌-◌, ◌*◌, ◌/◌, ◌%◌, ◌^◌, ◌<◌, bit_or, ltb, if◌then◌else◌, set, u8, u16, u32,
}
use monidroid.Edid.Data.{
  Edid, DetailedTiming, timing, h_blank, h_front, h_sync, min_v_blank_us, v_sync, v_back,
}

-- The `double` arithmetic of the C++ implementation, and `ceil` of <cmath>. `of_int` converts an `int`,
-- given as its bit pattern; `to_u32` is the conversion to `unsigned int`.
pub record Doubles : Type 1 where
  pub Double : Type 0
  pub of_int : ℕ → Double
  pub of_u32 : ℕ → Double
  pub add : Double → Double → Double
  pub sub : Double → Double → Double
  pub mul : Double → Double → Double
  pub div : Double → Double → Double
  pub ceil : Double → Double
  pub to_u32 : Double → ℕ
  pub to_u32-lt : (x : Double) → to_u32 x < 2 ^ 32

module _ (d : Doubles) where
  open d use {Double, of_int, of_u32, add, sub, mul, div, ceil, to_u32}

  -- `vbiLines`
  unfoldable pub vbi_lines : ℕ → ℕ → ℕ
  vbi_lines height hertz =
      let v_field_rate =
        mul (of_int hertz) (add (of_int 1) (div (of_int 350) (of_int 1_000_000))) in
      let h_period_est =
        div (sub (div (of_int 1_000_000) v_field_rate) (of_u32 min_v_blank_us)) (of_int height) in
      to_u32 (ceil (div (of_u32 min_v_blank_us) h_period_est))

  -- `vBlank`: the estimate, but not below the reduced-blanking minimum.
  unfoldable pub v_blank : ℕ → ℕ → ℕ
  v_blank height hertz =
      let rb_min_vbi : ℕ = 1 + v_sync + v_back in
      if ltb (vbi_lines height hertz) rb_min_vbi then rb_min_vbi else vbi_lines height hertz

  -- `vOffset`, computed in `u32`.
  unfoldable pub v_offset : ℕ → ℕ → ℕ
  v_offset height hertz = u32 (v_blank height hertz + 2 ^ 32 - v_back - v_sync)

-- The descriptor for a mode with the given blanking. `x & 0x0F00u` is `x / 256 % 16 * 256`, and so on.
unfoldable pub mode_timing : ℕ → ℕ → ℕ → ℕ → ℕ → DetailedTiming
mode_timing width height hertz v_blank v_offset = record {
  pixel_clock = u16 (u32 (u32 (u32 (width + h_blank) * u32 (height + v_blank)) * hertz) / 10_000);
  hactive_lo = u8 (width % 256);
  hblank_lo = h_blank;
  hactive_hblank_hi = u8 (bit_or (width / 256 % 16 * 256 / 16) (h_blank / 256 % 16 * 256 / 256));
  vactive_lo = u8 (height % 256);
  vblank_lo = u8 v_blank;
  vactive_vblank_hi = u8 (bit_or (height / 256 % 16 * 256 / 16) (v_blank / 256 % 16 * 256 / 256));
  hsync_offset_lo = h_front % 256;
  hsync_width_lo = h_sync % 256;
  vsync_offset_width_lo = u8 (bit_or (v_offset % 16 * 16) (v_sync % 16));
  hsync_vsync_offset_width_hi = u8 (
      bit_or
        (bit_or (bit_or (h_front / 256 % 4 * 256 / 4) (h_sync / 256 % 4 * 256 / 16))
          (v_offset / 16 % 4 * 16 / 4))
        (v_sync / 16 % 4 * 16 / 16));
  width_mm_lo = 0;
  height_mm_lo = 0;
  width_height_mm_hi = 0;
  hborder = 0;
  vborder = 0;
  misc = 0b11110;
}

unfoldable pub set_default_mode : Doubles → Edid → ℕ → ℕ → ℕ → Edid
set_default_mode d e width height hertz = record e {
  data_blocks =
      set e.data_blocks 0 (
        timing (mode_timing width height hertz (v_blank d height hertz) (v_offset d height hertz)));
}
