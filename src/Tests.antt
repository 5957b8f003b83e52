-- ===== src/Tests.antt =====
-- The theorems at concrete inputs.
pub mod Worlds
mod Schedule
mod Kernels
mod Objects
mod Blocks
mod Events
mod Turns
mod Whole
mod Sleeper
mod Calls
mod Lines
mod Timers
