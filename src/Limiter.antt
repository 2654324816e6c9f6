-- ===== src/Limiter.antt =====
-- The rate limiters (app/core/limiter.py).
pub mod Bucket
pub mod Level
pub mod Spending
mod Examples
