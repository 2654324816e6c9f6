-- ===== src/Flight.antt =====
-- Shared work on one key (app/services/media/singleflight.py).
pub mod Group
pub mod Steps
pub mod Counts
pub mod Invariant
pub mod Leaving
pub mod Reached
pub mod Examples
