-- ===== src/Documents.antt =====
-- Documents (app/services/documents/): reads, deletion, deduplicated upload.
pub mod Query
pub mod Views
pub mod Download
pub mod Dedup
pub mod Upload
pub mod Chunker
pub mod Deletion
