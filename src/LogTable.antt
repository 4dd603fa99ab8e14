-- ===== src/LogTable.antt =====
-- The table functions `read_duck_hunt_log` and `parse_duck_hunt_log` of
-- src/read_duck_hunt_log_function.cpp.
pub mod Schema
pub mod Rows
pub mod Typed
pub mod Bind
pub mod BindSound
pub mod Run
pub mod Batch
pub mod Pull
pub mod Drain
pub mod Stream
pub mod Streamed
pub mod StreamSound
pub mod StreamRows
pub mod StreamStart
pub mod Init
pub mod InitSound
