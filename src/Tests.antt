-- ===== src/Tests.antt =====
-- The theorems at concrete inputs.
pub mod Images
pub mod Files
pub mod Screens
pub mod Devices
pub mod Processes
pub mod Buffers
pub mod Switches
pub mod Worlds
pub mod Game
