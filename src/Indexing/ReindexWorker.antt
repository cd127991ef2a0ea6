-- ===== src/Indexing/ReindexWorker.antt =====
-- app/services/indexing/reindex_worker.py. `build` stands for `build_reindex_target`: it may write
-- to the database, and `some text` is an exception's text; `repr` is Python's, for texts.
pub mod Closing
pub mod Terminal
use documents_rag.Base.{
  ℕ, Bool, true, false, not, ltb, leb, ◌==◌, ◌&&◌, ◌||◌, List, [], ◌∷◌, ◌++◌, Option, none, some,
  Result, ok, err, Text, codes, text_eq, take, first, select, if◌then◌else◌,
}
use documents_rag.Db.{Db, DbError, commit}
use documents_rag.Db.Env.{Env}
use documents_rag.Db.Models.{
  Document, DocumentDeletionJob, DocumentDeletionStatus, IndexCollection, ReindexJob,
  ReindexJobStatus, deletion_row, document_key, reindex_key,
}
use documents_rag.Db.Rows.{get, order_by, update_row, latest_for}
use documents_rag.Indexing.Config.{EmbeddingIndexConfig, collection_name, checked}
use documents_rag.Indexing.Registry.{get_collection}

abbrev pub max_reindex_message_length : ℕ
max_reindex_message_length = 2048

-- `message[:2048]`
abbrev pub bounded_reindex_message : Text → Text
bounded_reindex_message message = take max_reindex_message_length message

pub data ReindexWorkerOutcome : Type 0 where
  no_job completed failed skipped_deleted : ReindexWorkerOutcome

pub record ReindexWorkerResult : Type 0 where
  pub outcome : ReindexWorkerOutcome
  pub job_id : Option ℕ
  pub document_id : Option ℕ

-- What a round raises: the commit's error, the configuration's, or a failed assertion that the
-- job's row is there.
pub data WorkerError : Type 0 where
  db_error : DbError → WorkerError
  invalid_config missing_job : WorkerError

abbrev pub Reply : Type 0
Reply = Db × Result WorkerError ReindexWorkerResult

abbrev pub is_pending : ReindexJobStatus → Bool
is_pending ReindexJobStatus.pending = true
is_pending _ = false

abbrev pub is_processing : ReindexJobStatus → Bool
is_processing ReindexJobStatus.processing = true
is_processing _ = false

-- `ORDER BY created_at, id LIMIT 1`, `SKIP LOCKED`
unfoldable pub claim_next_pending_reindex_job : (ℕ → Bool) → Db → Option ReindexJob
claim_next_pending_reindex_job locked db = first (
    order_by
      (λ (a b : ReindexJob).
        ltb a.created_at b.created_at || ((a.created_at == b.created_at) && leb a.id b.id))
      (select (λ (j : ReindexJob). is_pending j.status && not (locked j.id)) db.reindex_jobs))

abbrev pub start_job : Env → ReindexJob → ReindexJob
start_job env job = record job { status = ReindexJobStatus.processing; updated_at = env.db_now }

abbrev pub fail_job : Env → Text → ReindexJob → ReindexJob
fail_job env message job = record job {
  status = ReindexJobStatus.failed;
  error_message = some (bounded_reindex_message message);
  completed_at = some env.now;
  updated_at = env.db_now;
}

abbrev pub complete_job : Env → ReindexJob → ReindexJob
complete_job env job = record job {
  status = ReindexJobStatus.completed;
  completed_at = some env.now;
  error_message = none;
  updated_at = env.db_now;
}

abbrev pub write_reindex : ℕ → (ReindexJob → ReindexJob) → Db → Db
write_reindex i f db = record db { reindex_jobs = update_row i f db.reindex_jobs }

abbrev pub report : ReindexJob → ReindexWorkerOutcome → Db × Option DbError → Reply
report job outcome (db, some e) = (db, err (WorkerError.db_error e))
report job outcome (db, none) = (
  db,
  ok (record { outcome = outcome; job_id = some job.id; document_id = some job.document_id }),
)

-- the job's row is read again, changed and committed
unfoldable pub close_job :
    ReindexJob → (ReindexJob → ReindexJob) → ReindexWorkerOutcome → Db → Option ReindexJob → Reply
close_job job change outcome db none = (db, err WorkerError.missing_job)
close_job job change outcome db (some row) =
    report job outcome (commit db (write_reindex job.id change db))

-- `_fail`
unfoldable pub fail : Env → ReindexJob → Text → ReindexWorkerOutcome → Db → Reply
unfolding close_job
fail env job message outcome db =
    close_job job (fail_job env message) outcome db (get job.id db.reindex_jobs)

abbrev pub deletion_value : DocumentDeletionStatus → Text
deletion_value DocumentDeletionStatus.pending = codes "pending"
deletion_value DocumentDeletionStatus.processing = codes "processing"
deletion_value DocumentDeletionStatus.partially_failed = codes "partially_failed"
deletion_value DocumentDeletionStatus.completed = codes "completed"

abbrev pub reindex_value : ReindexJobStatus → Text
reindex_value ReindexJobStatus.pending = codes "pending"
reindex_value ReindexJobStatus.processing = codes "processing"
reindex_value ReindexJobStatus.completed = codes "completed"
reindex_value ReindexJobStatus.failed = codes "failed"

abbrev pub Build : Type 0
Build = Document → EmbeddingIndexConfig → ℕ → ℕ → Db → Db × Option Text

module _ (repr : Text → Text) (prefix : Text) (build : Build) (env : Env) where
  abbrev pub late_message : ReindexJob → ReindexJobStatus → Text
  late_message job status =
      codes "ReindexJob "
      ++ env.show_uuid job.id
      ++ codes " was no longer PROCESSING (found "
      ++ repr (reindex_value status)
      ++ codes ") after a successful build."

  abbrev pub mismatch_message : ReindexJob → EmbeddingIndexConfig → Text
  mismatch_message job target_config =
      codes "Reconstructed target collection "
      ++ repr (collection_name target_config)
      ++ codes " does not match the pinned target "
      ++ repr job.target_collection_name
      ++ codes "."

  abbrev pub unknown_target_message : ReindexJob → Text
  unknown_target_message job =
      codes "Target collection "
      ++ repr job.target_collection_name
      ++ codes " has no IndexCollection row."

  abbrev pub blocked_message : ReindexJob → DocumentDeletionStatus → Text
  blocked_message job status =
      codes "Document "
      ++ env.show_uuid job.document_id
      ++ codes " has a blocking deletion state ("
      ++ deletion_value status
      ++ codes "); refusing to build."

  abbrev pub missing_message : ReindexJob → Text
  missing_message job = codes "Document " ++ env.show_uuid job.document_id ++ codes " not found."

  -- after a build that raised nothing: the row must still be processing
  unfoldable pub finish_row : ReindexJob → Db → Option ReindexJob → Reply
  unfolding close_job
  finish_row job db none = (db, err WorkerError.missing_job)
  finish_row job db (some row) =
      if is_processing row.status
      then close_job job (complete_job env) ReindexWorkerOutcome.completed db (some row)
      else close_job job (fail_job env (late_message job row.status)) ReindexWorkerOutcome.failed db
          (some row)

  unfoldable pub after_build : ReindexJob → Db × Option Text → Reply
  unfolding finish_row fail
  after_build job (db, some raised) = fail env job raised ReindexWorkerOutcome.failed db
  after_build job (db, none) = finish_row job db (get job.id db.reindex_jobs)

  unfoldable pub run_build : ReindexJob → Document → Db → Option EmbeddingIndexConfig → Reply
  unfolding after_build
  run_build job document db none = (db, err WorkerError.invalid_config)
  run_build job document db (some target_config) =
      if text_eq (collection_name target_config) job.target_collection_name
      then after_build job
          (build document target_config job.target_chunk_size job.target_chunk_overlap db)
      else fail env job (mismatch_message job target_config) ReindexWorkerOutcome.failed db

  abbrev pub config_of : IndexCollection → EmbeddingIndexConfig
  config_of c = record {
    collection_prefix = prefix;
    provider = c.embedding_provider;
    model = c.embedding_model;
    dimension = c.embedding_dimension;
    embedding_version = c.embedding_version;
    chunking_version = c.chunking_version;
  }

  unfoldable pub run_target : ReindexJob → Document → Db → Option IndexCollection → Reply
  unfolding run_build
  run_target job document db none =
      fail env job (unknown_target_message job) ReindexWorkerOutcome.failed db
  run_target job document db (some c) = run_build job document db (checked (config_of c))

  -- every deletion status blocks
  unfoldable pub run_found : ReindexJob → Document → Db → Option DocumentDeletionJob → Reply
  unfolding run_target
  run_found job document db (some deletion) =
      fail env job (blocked_message job deletion.status) ReindexWorkerOutcome.skipped_deleted db
  run_found job document db none =
      run_target job document db (get_collection job.target_collection_name db.collections)

  unfoldable pub run_started : ReindexJob → Db → Option Document → Reply
  unfolding run_found
  run_started job db none = fail env job (missing_message job) ReindexWorkerOutcome.failed db
  run_started job db (some document) =
      run_found job document db (latest_for job.document_id db.deletion_jobs)

  unfoldable pub run_job : ReindexJob → Db × Option DbError → Reply
  unfolding run_started
  run_job job (db, some e) = (db, err (WorkerError.db_error e))
  run_job job (db, none) = run_started job db (get job.document_id db.documents)

  unfoldable pub run_claim : Db → Option ReindexJob → Reply
  unfolding run_job
  run_claim db none =
      (db, ok (record { outcome = ReindexWorkerOutcome.no_job; job_id = none; document_id = none }))
  run_claim db (some job) = run_job job (commit db (write_reindex job.id (start_job env) db))

  unfoldable pub process_next_reindex_job : (ℕ → Bool) → Db → Reply
  unfolding run_claim
  process_next_reindex_job locked db = run_claim db (claim_next_pending_reindex_job locked db)
