-- ===== src/TestMode.antt =====
-- internal/gobot/testmode: a test session, in which a list of expected EPCs is ticked off.
pub mod Parser
pub mod Manager
