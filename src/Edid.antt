-- ===== src/Edid.antt =====
-- common/monidroid/edid.h: the EDID block that describes a client's screen to the OS.
pub mod Data
pub mod Custom
pub mod Mode
pub mod Commit
pub mod Timing
pub mod Checksum
