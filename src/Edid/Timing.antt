-- ===== src/Edid/Timing.antt =====
-- The fields of the descriptor that `setDefaultMode` writes.
use monidroid.Base.{
  ℕ, ◌+◌, ◌-◌, ◌*◌, ◌/◌, ◌%◌, ◌^◌, ◌≤◌, ◌<◌, ◌≡◌, arith, or_nibbles, or_upper_nibbles,
  or_between_zeros,
}
use monidroid.Edid.Data.{DetailedTiming, v_sync, h_blank}
use monidroid.Edid.Mode.{Doubles, vbi_lines, v_blank, v_offset, mode_timing}

-- What a reader of the descriptor gets for the vertical front porch and the vertical sync width.
unfoldable pub v_front_porch : DetailedTiming → ℕ
v_front_porch t = t.vsync_offset_width_lo / 16 + t.hsync_vsync_offset_width_hi / 4 % 4 * 16

unfoldable pub v_sync_width : DetailedTiming → ℕ
v_sync_width t = t.vsync_offset_width_lo % 16 + t.hsync_vsync_offset_width_hi % 4 * 16

vbi_lines-lt : (d : Doubles) (height hertz : ℕ) → vbi_lines d height hertz < 2 ^ 32
unfolding vbi_lines
vbi_lines-lt d height hertz = d.to_u32-lt _

v_blank-lt : (d : Doubles) (height hertz : ℕ) → v_blank d height hertz < 2 ^ 32
unfolding v_blank
v_blank-lt d height hertz = ground (arith, vbi_lines-lt d height hertz)

pub v_blank_bounds :
    (d : Doubles) (height hertz : ℕ)
    → (15 ≤ v_blank d height hertz) × (vbi_lines d height hertz ≤ v_blank d height hertz)
unfolding v_blank
v_blank_bounds d height hertz = ground arith

-- The subtraction in `u32` never wraps.
pub v_offset_lem :
    (d : Doubles) (height hertz : ℕ) → v_offset d height hertz + 14 ≡ v_blank d height hertz
unfolding v_offset
v_offset_lem d height hertz =
    omega (arith, v_blank_bounds d height hertz, v_blank-lt d height hertz)

module _ (w h hz b o : ℕ) where
  pub hactive_hi : (mode_timing w h hz b o).hactive_hblank_hi ≡ w / 256 % 16 * 16
  unfolding mode_timing
  hactive_hi = omega (arith, or_upper_nibbles (w / 256 % 16) (h_blank / 256 % 16))

  pub vactive_hi : (mode_timing w h hz b o).vactive_vblank_hi ≡ h / 256 % 16 * 16 + b / 256 % 16
  unfolding mode_timing
  vactive_hi = omega (arith, or_upper_nibbles (h / 256 % 16) (b / 256 % 16))

  -- Six bits of the vertical offset and of the sync width are kept.
  pub v_sync_fields :
      (v_front_porch (mode_timing w h hz b o) ≡ o % 64)
      × (v_sync_width (mode_timing w h hz b o) ≡ v_sync)
  unfolding mode_timing v_front_porch v_sync_width
  v_sync_fields = omega (arith, or_nibbles (o % 16) (v_sync % 16), or_between_zeros (o / 16 % 4))

-- The vertical fields of the descriptor: the blanking is at least the reduced-blanking minimum and the
-- estimate; the front porch is read back as what the sync (8) and the back porch (6) leave of it, cut to
-- six bits.
vertical_fields :
    (d : Doubles) (w h hz : ℕ)
    → let b = v_blank d h hz in
      let t = mode_timing w h hz b (v_offset d h hz) in
      (15 ≤ b) × (vbi_lines d h hz ≤ b) × (v_front_porch t ≡ (b - 14) % 64) × (v_sync_width t ≡ 8)
vertical_fields d w h hz = omega (
  arith,
  v_blank_bounds d h hz,
  v_offset_lem d h hz,
  v_sync_fields w h hz (v_blank d h hz) (v_offset d h hz),
)
