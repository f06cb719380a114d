-- ===== src/Dpll.antt =====
-- pkg/dpll/dpll.go: the state of one DPLL, the decision from its lock status, and the holdover.
pub mod Config
pub mod Decision
pub mod Holdover
pub mod Netlink
pub mod Depending
pub mod Subscriptions
pub mod Monitor
pub mod Replies
mod Tests
