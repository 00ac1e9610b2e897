-- ===== src/Sdk.antt =====
-- sdk: the client that runs the inventory of a reader and turns its packets into tag events.
pub mod Config
pub mod Antenna
pub mod Client
pub mod Frames
pub mod Control
pub mod Connection
