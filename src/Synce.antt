-- ===== src/Synce.antt =====
-- pkg/synce/synce.go: the states and quality levels of synchronous Ethernet.
pub mod Eec
pub mod Quality
pub mod Relations
mod Tests
