-- ===== src/Tui.antt =====
-- internal/tui: the terminal interface, as far as it decides something.
pub mod ConnectPlan
pub mod Tune
pub mod Frames
