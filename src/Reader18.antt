-- ===== src/Reader18.antt =====
-- internal/protocol/reader18/protocol.go: the frames of the UHFReader18 protocol.
pub mod Crc
pub mod Packet
pub mod Commands
pub mod Frames
pub mod Inventory
