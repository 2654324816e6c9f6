-- ===== src/Disk.antt =====
-- Disk reservations and the lease markers of media files (app/core/resource_budget.py).
pub mod Budget
pub mod Accounting
pub mod Markers
pub mod Promote
pub mod Operations
pub mod Ownership
pub mod Leases
pub mod MarkerSteps
pub mod Protection
pub mod Examples
