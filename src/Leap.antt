-- ===== src/Leap.antt =====
-- pkg/leap/leap-file.go: the file of leap seconds, its update from the GNSS receiver, and the leap
-- second sent to ptp4l.
pub mod File
pub mod Calendar
pub mod Manager
pub mod Indication
pub mod Window
mod Tests
