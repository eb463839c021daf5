-- ===== src/Monitor.antt =====
-- lib/src/monitor.c
pub mod Codes
pub mod Table
pub mod Watched
pub mod Add
pub mod Daemon
pub mod Run
pub mod Client
