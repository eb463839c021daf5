-- ===== src/Ratelimit.antt =====
-- lib/src/ratelimit.c
pub mod Balance
pub mod Codes
pub mod Names
pub mod Mounts
pub mod Cgroups
pub mod Attach
pub mod Remove
pub mod Init
pub mod Limit
pub mod Cleanup
pub mod Groups
pub mod Query
