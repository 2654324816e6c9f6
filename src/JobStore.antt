-- ===== src/JobStore.antt =====
-- The durable job store (app/core/job_store.py): tables, operations and their theorems.
pub mod Schema
pub mod Lease
pub mod Inbox
pub mod Claims
pub mod Transitions
pub mod Deliveries
pub mod Maintenance
pub mod Retry
pub mod Settled
pub mod Call
pub mod Steps
pub mod Frames
pub mod AtMostOnce
pub mod Consistency
pub mod Keeps
pub mod Invariant
pub mod Terminal
pub mod Completed
pub mod Exclusion
pub mod Attempts
pub mod Receipts
pub mod Keyed
pub mod Chain
pub mod Dedup
pub mod ClaimRows
pub mod Context
mod Examples
