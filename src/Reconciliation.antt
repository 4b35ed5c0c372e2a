-- ===== src/Reconciliation.antt =====
-- src/modules/reconciliation: what happens to transactions whose callback does not come.
pub mod Drift
pub mod Resolution
