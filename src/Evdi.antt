-- ===== src/Evdi.antt =====
-- server/linux/evdi.cpp: the monitors of the Linux server, on the EVDI module.
pub mod Data
pub mod Monitor
pub mod Adapter
pub mod Buffer
pub mod Status
pub mod Streams
pub mod Uinput
pub mod Phones
