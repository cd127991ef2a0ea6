-- ===== src/Tests.antt =====
-- Runs of the model on concrete inputs, and instances of the theorems.
mod Data
mod Ingestion
mod Recovery
mod Worker
mod Documents
mod Stores
mod Indexing
mod Reindex
mod Names
mod Keys
mod Uploads
mod Chunks
mod Audits
mod Batches
mod Reports
mod Reads
mod Storages
mod Answers
