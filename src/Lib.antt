-- ===== src/Lib.antt =====
-- Verification library of the document question-answering backend (app/).
--
-- The program keeps documents in PostgreSQL, their files in a FileStorage and their chunks'
-- vectors in a VectorStore. Requests and workers meet only in the tables: an upload or a retry
-- inserts a pending ingestion job, the ingestion worker claims it, a recovery sweep replaces
-- abandoned ones; a deletion request inserts a deletion job, whose worker removes vectors and
-- file; a re-index job builds vectors in a second collection, an activation switches the document
-- to it and leaves a cleanup job for the first. What stops two of them from working on one
-- document at once are the partial unique indexes on active jobs and the checks of each service.
--
-- The state is `Db` (Db.antt): one list of rows per table. `commit` models the end of a
-- transaction: it refuses a table that breaks a unique index or a message column's width, and
-- rolls back. A service is a function from the database (and the state of a remote store) to a new
-- one and its answer; errors are values. Between the reads of a call and its commit other
-- transactions may commit: the argument `others : Db → Db` stands for all of them together, and
-- `later` for those between a refused commit and the read that follows its rollback. The
-- clock and the UUIDs of a call are its argument `Env`. Times are microseconds, texts are lists of
-- code points, ids are numbers. Rows under SKIP LOCKED are left out by a Boolean test `locked`.
--
--   Db, Db/*                 app/models, alembic/versions/a1a302e871c3_current_schema_baseline.py,
--                            and the queries that several services repeat (latest_for is
--                            ORDER BY created_at DESC, id DESC LIMIT 1)
--   External                 app/rag/providers/vector_store.py, app/storage/contract.py and
--                            errors.py: the abstract classes, as records with laws
--   Core/Retry               app/core/retry.py
--   Storage/Keys, Failures, Local, Sdk, Minio
--                            app/storage/keys.py, errors.py, local_storage.py, minio_storage.py
--   Ingestion/Status, Retry, Recovery, Worker
--                            app/services/ingestion/status.py, retry_service.py,
--                            stale_recovery_service.py, worker.py
--   Documents/Query, Views   app/services/documents/query_service.py
--   Documents/Download       app/services/documents/download_service.py
--   Documents/Dedup, Upload  app/services/documents/dedup_service.py, upload_service.py
--   Documents/Deletion, Deletion/Worker
--                            app/services/documents/deletion_service.py, deletion_worker.py
--   Documents/Chunker        app/services/documents/chunker.py
--   Indexing/Vectors, Config, Settings, Registry, Scheduling, Activation, Inspection, Cleanup,
--   ReindexWorker
--                            app/services/indexing/vector_deletion_service.py,
--                            app/rag/embedding_config.py, app/core/config.py (the index settings),
--                            and app/services/indexing/collection_registry.py,
--                            reindex_service.py (build_settings_for_target),
--                            reindex_scheduling_service.py, reindex_activation.py,
--                            reindex_inspection_service.py, cleanup_job_service.py,
--                            reindex_worker.py
--   Reconciliation/Findings, Lifecycle, Remote, Audit
--                            app/services/reconciliation/document_audit_service.py
--   Reconciliation/Cursor, Triage, Batch
--                            app/services/reconciliation/document_audit_batch_service.py
--   Reconciliation/Report    app/services/reconciliation/collection_reconciliation_report_service.py
--   Rag/Language, Decision, Embeddings, Prompts, PromptBuilder, Retrieval, Orchestrator
--                            app/rag/language.py, decision.py, embedding_validation.py,
--                            prompts/types.py, catalog.py, provider.py, prompt_builder.py,
--                            retrieval_service.py, orchestrator.py
--
-- A function keeps its Python name without a leading underscore; its branches are helpers named
-- for the step (retry_latest, settle, after_vectors). The deletion worker's process_next_job is
-- process_next_deletion. The proofs stand in child modules named for what they show.
--
-- All loops run over lists or count attempts and are structural; no fuel is used, except for the
-- digits of a number (`decimal`), whose fuel exceeds the number of digits, and for the number of
-- pages that a client of the batch audit fetches (`walk`), one more than there are documents.
--
-- A question is answered by the path in Rag: a decision, a retrieval over the active collection,
-- a prompt and the model's stream; it reads the vectors and writes nothing. An audit compares the
-- tables with both stores and writes nothing either.
--
-- Not modelled: HTTP routes, logging and the other settings, text extraction, the pipeline of an
-- ingestion and the build of a re-index (parameters of their workers), the LangChain engine, the
-- adapters of Qdrant and Ollama, health checks and the scripts. The calls of pathlib and of the
-- MinIO SDK, the searches for regular expressions in a question, Base64, UTF-8, JSON, ISO 8601,
-- the parser of UUIDs, embedding, vector search and the model are parameters. Symbolic links, the
-- metadata mapping of a stored file, exceptions other than a StorageError from an existence check
-- and other than a QdrantVectorStoreError from an inspection of the vector store (both would leave
-- an audit), row locks beyond SKIP LOCKED, foreign keys and the uniqueness of fresh UUIDs are left
-- out; a theorem that needs fresh ids says so.
pub mod Base
pub mod Db
pub mod Core
pub mod External
pub mod Storage
pub mod Ingestion
pub mod Indexing
pub mod Documents
pub mod Reconciliation
pub mod Rag
mod Tests
