-- ===== src/Daemon.antt =====
-- Package daemon (pkg/daemon): the configurations of ptp4l and its companions, what their logs say
-- of ports and offsets, the flags for monitoring, and the profiles.
pub mod Config
pub mod Render
pub mod Ports
pub mod Offsets
pub mod Regular
pub mod Monitor
pub mod Profiles
pub mod Gnss
pub mod Command
pub mod Ts2phc
pub mod Failover
pub mod Output
pub mod SynceEvents
mod Tests
