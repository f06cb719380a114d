-- ===== src/Receiver.antt =====
-- The GNSS receiver through ubxtool (pkg/ublox/ublox.go).
pub mod Poll
pub mod Report
mod Tests
