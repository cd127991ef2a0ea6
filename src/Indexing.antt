-- ===== src/Indexing.antt =====
-- Index collections, re-indexing and vector cleanup (app/services/indexing/, app/rag/).
pub mod Vectors
pub mod Config
pub mod Settings
pub mod Registry
pub mod Scheduling
pub mod Activation
pub mod Inspection
pub mod Cleanup
pub mod ReindexWorker
