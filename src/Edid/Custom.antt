-- ===== src/Edid/Custom.antt =====
-- common/monidroid/edid.h: `CUSTOM_EDID` and `CUSTOM_EDID_MODES`. Members that the initialisers leave
-- out are zero.
use monidroid.Base.{◌+◌, ◌-◌, ◌*◌, ◌/◌, ◌%◌, [], ◌∷◌, List, replicate}
use monidroid.Edid.Data.{
  Edid, MonitorMode, DetailedTiming, DataBlock, timing, desc, StandardTiming, h_blank, h_front,
  h_sync,
}

-- `{ 0x01, 0x01 }`
abbrev unused_timing : StandardTiming
unused_timing = record { h_pixels = 0x01; ar_refresh_rate = 0x01 }

-- `x & 0x0F00u` is `x / 256 % 16 * 256`, and so on.
abbrev custom_timing : DetailedTiming
custom_timing = record {
  pixel_clock = (2400 + h_blank) * (1500 + 67) * 60 / 10_000;
  hactive_lo = 2400 % 256;
  hblank_lo = h_blank;
  hactive_hblank_hi = 2400 / 256 % 16 * 16 + h_blank / 256 % 16;
  vactive_lo = 1500 % 256;
  vblank_lo = 67;
  vactive_vblank_hi = 1500 / 256 % 16 * 16 + 67 / 256 % 16;
  hsync_offset_lo = h_front % 256;
  hsync_width_lo = h_sync % 256;
  vsync_offset_width_lo = 53 % 16 * 16 + 8 % 16;
  hsync_vsync_offset_width_hi =
      h_front / 256 % 4 * 64 + h_sync / 256 % 4 * 16 + 53 / 16 % 4 * 4 + 8 / 16 % 4;
  width_mm_lo = 0;
  height_mm_lo = 0;
  width_height_mm_hi = 0;
  hborder = 0;
  vborder = 0;
  misc = 0b11110;
}

-- `{ .desc { .tag = 0x10 } }`
abbrev dummy_descriptor : DataBlock
dummy_descriptor =
    desc (record { r1 = replicate 3 0; tag = 0x10; r2 = 0; payload = replicate 13 0 })

abbrev pub custom_edid : Edid
custom_edid = record {
  header = 0x00 ∷ 0xFF ∷ 0xFF ∷ 0xFF ∷ 0xFF ∷ 0xFF ∷ 0xFF ∷ 0x00 ∷ [];
  vendor = record {
    manufacturer_id = 0b00110100 ∷ 0b10010001 ∷ [];
    product_id = 0x00 ∷ 0x00 ∷ [];
    serial = 0x00 ∷ 0x00 ∷ 0x00 ∷ 0x00 ∷ [];
    week = 0;
    year = 2026 - 1990;
  };
  version = 1;
  revision = 4;
  features = record {
    input_def = 0b10000000;
    h_size = 0;
    v_size = 0;
    gamma = 220 - 100;
    features = 0b00011010;
  };
  color = record {
    red_green = 0x6C;
    blue_white = 0xE5;
    red_x = 0xA5;
    red_y = 0x55;
    green_x = 0x50;
    green_y = 0xA0;
    blue_x = 0x23;
    blue_y = 0x0B;
    white_x = 0x50;
    white_y = 0x54;
  };
  est_timings = record { timings_one = 0b00100001; timings_two = 0b00001000; my_timings = 0 };
  standard_timings =
      record { h_pixels = 1920 / 8 - 31; ar_refresh_rate = 0b11 * 64 + (60 - 60) }
      ∷ replicate 7 unused_timing;
  data_blocks =
      timing custom_timing
      ∷ desc (record {
        r1 = replicate 3 0;
        tag = 0xFC;
        r2 = 0;
        payload =
            b'M' ∷ b'o' ∷ b'n' ∷ b'i' ∷ b'd' ∷ b'r' ∷ b'o' ∷ b'i' ∷ b'd' ∷ 10 ∷ b' ' ∷ b' ' ∷ b' '
            ∷ [];
      })
      ∷ dummy_descriptor
      ∷ dummy_descriptor
      ∷ [];
  ext_count = 0;
  checksum = 0;
}

-- Entry 0 is reserved for the preferred mode.
abbrev pub custom_edid_modes : List MonitorMode
custom_edid_modes =
    record { width = 0; height = 0; refresh_rate = 0 }
    ∷ record { width = 1920; height = 1080; refresh_rate = 60 }
    ∷ record { width = 640; height = 480; refresh_rate = 60 }
    ∷ record { width = 800; height = 600; refresh_rate = 60 }
    ∷ record { width = 1024; height = 768; refresh_rate = 60 }
    ∷ []
