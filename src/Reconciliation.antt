-- ===== src/Reconciliation.antt =====
-- app/services/reconciliation: read-only audits of the tables against the two remote stores.
pub mod Findings
pub mod Lifecycle
pub mod Remote
pub mod Audit
pub mod Cursor
pub mod Triage
pub mod Batch
pub mod Report
