-- ===== src/Event.antt =====
-- pkg/event: the state of every process per profile, the grandmaster state, the clock class and
-- the subscribers.
pub mod Types
pub mod Stats
pub mod Grandmaster
pub mod Handler
pub mod Process
pub mod Runs
pub mod ClockClass
pub mod PubSub
mod Tests
