-- ===== src/Edid/Data.antt =====
-- common/monidroid/edid.h: `struct EDID`, `MonitorMode`, and the memory layout of the struct, member by
-- member in the order of declaration (every member but `pixel_clock` is made of bytes).
use monidroid.Base.{ℕ, ◌/◌, List, [], ◌∷◌, ◌++◌, u8}

abbrev pub h_blank : ℕ
h_blank = 80

abbrev pub h_front : ℕ
h_front = 8

abbrev pub h_sync : ℕ
h_sync = 32

abbrev pub min_v_blank_us : ℕ
min_v_blank_us = 460

abbrev pub v_sync : ℕ
v_sync = 8

abbrev pub v_back : ℕ
v_back = 6

pub record MonitorMode : Type 0 where
  pub width : ℕ
  pub height : ℕ
  pub refresh_rate : ℕ

pub record Vendor : Type 0 where
  pub manufacturer_id : List ℕ
  pub product_id : List ℕ
  pub serial : List ℕ
  pub week : ℕ
  pub year : ℕ

pub record Features : Type 0 where
  pub input_def : ℕ
  pub h_size : ℕ
  pub v_size : ℕ
  pub gamma : ℕ
  pub features : ℕ

pub record Color : Type 0 where
  pub red_green : ℕ
  pub blue_white : ℕ
  pub red_x : ℕ
  pub red_y : ℕ
  pub green_x : ℕ
  pub green_y : ℕ
  pub blue_x : ℕ
  pub blue_y : ℕ
  pub white_x : ℕ
  pub white_y : ℕ

pub record EstablishedTimings : Type 0 where
  pub timings_one : ℕ
  pub timings_two : ℕ
  pub my_timings : ℕ

pub record StandardTiming : Type 0 where
  pub h_pixels : ℕ
  pub ar_refresh_rate : ℕ

pub record DetailedTiming : Type 0 where
  pub pixel_clock : ℕ  -- u16
  pub hactive_lo : ℕ
  pub hblank_lo : ℕ
  pub hactive_hblank_hi : ℕ
  pub vactive_lo : ℕ
  pub vblank_lo : ℕ
  pub vactive_vblank_hi : ℕ
  pub hsync_offset_lo : ℕ
  pub hsync_width_lo : ℕ
  pub vsync_offset_width_lo : ℕ
  pub hsync_vsync_offset_width_hi : ℕ
  pub width_mm_lo : ℕ
  pub height_mm_lo : ℕ
  pub width_height_mm_hi : ℕ
  pub hborder : ℕ
  pub vborder : ℕ
  pub misc : ℕ

-- `__r1[3]`, `tag`, `__r2` and `data[13]`.
pub record DisplayDescriptor : Type 0 where
  pub r1 : List ℕ
  pub tag : ℕ
  pub r2 : ℕ
  pub payload : List ℕ

-- The members of the union `dataBlocks[i]`.
pub data DataBlock : Type 0 where
  timing : DetailedTiming → DataBlock
  desc : DisplayDescriptor → DataBlock

pub record Edid : Type 0 where
  pub header : List ℕ
  pub vendor : Vendor
  pub version : ℕ
  pub revision : ℕ
  pub features : Features
  pub color : Color
  pub est_timings : EstablishedTimings
  pub standard_timings : List StandardTiming
  pub data_blocks : List DataBlock
  pub ext_count : ℕ
  pub checksum : ℕ

unfoldable pub vendor_bytes : Vendor → List ℕ
vendor_bytes v = v.manufacturer_id ++ (v.product_id ++ (v.serial ++ (v.week ∷ v.year ∷ [])))

unfoldable pub features_bytes : Features → List ℕ
features_bytes f = f.input_def ∷ f.h_size ∷ f.v_size ∷ f.gamma ∷ f.features ∷ []

unfoldable pub color_bytes : Color → List ℕ
color_bytes c =
    c.red_green ∷ c.blue_white ∷ c.red_x ∷ c.red_y ∷ c.green_x ∷ c.green_y ∷ c.blue_x ∷ c.blue_y
    ∷ c.white_x ∷ c.white_y ∷ []

unfoldable pub est_timings_bytes : EstablishedTimings → List ℕ
est_timings_bytes t = t.timings_one ∷ t.timings_two ∷ t.my_timings ∷ []

unfoldable pub standard_bytes : List StandardTiming → List ℕ
standard_bytes [] = []
standard_bytes (t ∷ ts) = t.h_pixels ∷ t.ar_refresh_rate ∷ standard_bytes ts

unfoldable pub timing_bytes : DetailedTiming → List ℕ
timing_bytes t =
    u8 t.pixel_clock
    ∷ u8 (t.pixel_clock / 256)
    ∷ t.hactive_lo
    ∷ t.hblank_lo
    ∷ t.hactive_hblank_hi
    ∷ t.vactive_lo
    ∷ t.vblank_lo
    ∷ t.vactive_vblank_hi
    ∷ t.hsync_offset_lo
    ∷ t.hsync_width_lo
    ∷ t.vsync_offset_width_lo
    ∷ t.hsync_vsync_offset_width_hi
    ∷ t.width_mm_lo
    ∷ t.height_mm_lo
    ∷ t.width_height_mm_hi
    ∷ t.hborder
    ∷ t.vborder
    ∷ t.misc
    ∷ []

unfoldable pub block_bytes : DataBlock → List ℕ
unfolding timing_bytes
block_bytes (timing t) = timing_bytes t
block_bytes (desc d) = d.r1 ++ (d.tag ∷ d.r2 ∷ d.payload)

unfoldable pub blocks_bytes : List DataBlock → List ℕ
unfolding block_bytes
blocks_bytes [] = []
blocks_bytes (b ∷ bs) = block_bytes b ++ blocks_bytes bs

-- The bytes before the data blocks.
unfoldable pub prefix_bytes : Edid → List ℕ
prefix_bytes e =
    e.header
    ++ (vendor_bytes e.vendor
        ++ ((e.version ∷ e.revision ∷ [])
            ++ (features_bytes e.features
                ++ (color_bytes e.color
                    ++ (est_timings_bytes e.est_timings ++ standard_bytes e.standard_timings)))))

-- The bytes before `checksum`.
unfoldable pub body_bytes : Edid → List ℕ
body_bytes e = prefix_bytes e ++ (blocks_bytes e.data_blocks ++ (e.ext_count ∷ []))

-- `EDID::raw()`: the whole struct in memory.
unfoldable pub raw : Edid → List ℕ
raw e = body_bytes e ++ (e.checksum ∷ [])
