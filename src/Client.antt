-- ===== src/Client.antt =====
-- server/client.h and server/client.cpp: one connected client.
pub mod Data
pub mod Send
pub mod Identify
pub mod Frames
pub mod Input
