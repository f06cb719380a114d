-- ===== src/Addons.antt =====
-- The plugin for the E810 card (addons/intel).
pub mod Vpd
pub mod Delays
mod Tests
