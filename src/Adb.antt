-- ===== src/Adb.antt =====
-- The connection that runs adb (madbfs/src/connection/adb_connection.cpp, madbfs/src/cmd.cpp).
pub mod Command
pub mod Names
pub mod Texts
pub mod Calls
pub mod Numbers
pub mod Lines
pub mod Devices
mod Tests
