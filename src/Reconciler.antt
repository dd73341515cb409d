-- ===== src/Reconciler.antt =====
-- dashboard/control/reconciler.py, by its parts.
pub mod Decide
pub mod Steps
pub mod Lease
pub mod Capacity
