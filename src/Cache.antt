-- ===== src/Cache.antt =====
-- The media cache of one process and its leases (app/core/media_cache.py).
pub mod Memory
pub mod Calls
pub mod Refinement
pub mod Bounds
pub mod Leases
pub mod Requests
pub mod Exclusion
pub mod Examples
