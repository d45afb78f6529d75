-- ===== src/Server.antt =====
-- server/server.h and server/server.cpp: the clients of the server, and the thread of each.
pub mod Decimal
pub mod Data
pub mod Main
pub mod Accepts
pub mod Registry
pub mod Sessions
pub mod Shutdown
pub mod Threads
pub mod Sets
