-- ===== src/Tests.antt =====
-- The theorems at concrete inputs, a file for each part of the program.
pub mod Reader18
pub mod Stores
pub mod TestMode
pub mod Service
pub mod Sdk
pub mod Tui
pub mod Config
pub mod Discovery
pub mod BotReader
pub mod Servers
