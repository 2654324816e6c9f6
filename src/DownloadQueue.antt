-- ===== src/DownloadQueue.antt =====
-- The fair download queue (app/core/download_queue.py): leases over a semaphore with a bounded list
-- of waiters, and its theorems.
pub mod State
pub mod Steps
pub mod Leases
pub mod Waiters
pub mod Listed
pub mod Handoff
pub mod Safety
pub mod Runs
pub mod Fairness
mod Examples
