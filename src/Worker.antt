-- ===== src/Worker.antt =====
-- crates/gylo-worker/src/lib.rs: the supervisor of one child process, less its sockets, processes and timers:
-- its configuration, the jobs in flight, the rounds of dispatch, the reports that it gathers and writes,
-- the schedules, the upkeep of the tables, what it hands back, its restarts and the child's last words.
pub mod InFlight
pub mod Pending
pub mod Flush
pub mod Settled
pub mod Restart
pub mod LastWords
pub mod Settings
pub mod Dispatch
pub mod HandBack
pub mod Round
pub mod Refused
pub mod Maintenance
pub mod Retained
pub mod Placing
pub mod Rounds
pub mod Schedules
pub mod Collect
pub mod Handled
pub mod Named
pub mod Reading
pub mod Timely
pub mod Acked
mod Tests
mod Samples
mod Ticks
