-- ===== src/ProxyPool.antt =====
-- The pool of proxy routes (app/services/media/proxies.py): which routes a platform is offered, and
-- how failures cool a route down.
pub mod Routes
pub mod Health
pub mod Budget
pub mod Extract
pub mod Reach
pub mod Success
mod Examples
