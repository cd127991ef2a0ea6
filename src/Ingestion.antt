-- ===== src/Ingestion.antt =====
-- Ingestion jobs (app/services/ingestion/): retry, recovery of stale jobs, and the worker.
pub mod Status
pub mod Messages
pub mod Retry
pub mod Recovery
pub mod Worker
