-- ===== src/Worker.antt =====
-- The worker that processes the jobs of the inbox (app/core/drain.py), over the job store.
pub mod Process
pub mod Completion
pub mod Held
pub mod Settles
pub mod Stale
pub mod Examples
