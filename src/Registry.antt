-- ===== src/Registry.antt =====
-- The circuit breaker and the registry of provider routes (app/services/media/registry.py).
pub mod Circuit
pub mod Routes
pub mod Events
pub mod Opening
pub mod Revision
mod Examples
