-- ===== src/Pg.antt =====
-- crates/gylo-pg/src/lib.rs: the statements on the job table, on the schedules and on the steps, as
-- functions on their rows.
pub mod Row
pub mod Fetch
pub mod Settle
pub mod Lease
pub mod Enqueue
pub mod Machine
pub mod Ids
pub mod Count
pub mod Admission
pub mod Cascade
pub mod Discard
pub mod Batch
pub mod Leasing
pub mod Holding
pub mod Report
pub mod Held
pub mod Recover
pub mod Sound
pub mod Cron
pub mod Steps
pub mod Firing
pub mod Retention
pub mod Ended
pub mod Deletion
pub mod Pruning
pub mod Live
pub mod Listing
pub mod Backlog
pub mod Drain
pub mod History
mod Tests
mod Samples
