-- ===== src/Driver.antt =====
-- iddcx-driver: the Windows indirect display driver.
pub mod Status
pub mod Modes
pub mod Monitor
pub mod Processor
pub mod Lifecycle
pub mod Adapter
pub mod Ioctl
pub mod Device
