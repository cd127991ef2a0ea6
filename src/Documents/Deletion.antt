-- ===== src/Documents/Deletion.antt =====
-- app/services/documents/deletion_service.py. `others` is what other transactions commit between
-- the reads of a request and its commit.
pub mod Requests
pub mod Worker
use documents_rag.Base.{
  ℕ, Bool, true, false, ◌&&◌, ◌++◌, List, [], ◌∷◌, Option, none, some, Result, ok, err, Text, codes,
  text_eq, if◌then◌else◌, is_some,
}
use documents_rag.Db.{Db, DbError, integrity_error, value_too_long, commit}
use documents_rag.Db.Env.{Env}
use documents_rag.Db.Models.{
  Document, DocumentDeletionJob, DocumentDeletionStatus, IngestionJob, ReindexJob, document_key,
  deletion_row, ingestion_row, reindex_row, ingestion_active as ingestion_running,
}
use documents_rag.Db.Rows.{get, latest_for, latest_active_for}

pub data DeletionErrorCode : Type 0 where
  document_vector_cleanup_failed document_storage_cleanup_failed : DeletionErrorCode

unfoldable pub value_of : DeletionErrorCode → Text
value_of DeletionErrorCode.document_vector_cleanup_failed = codes "document_vector_cleanup_failed"
value_of DeletionErrorCode.document_storage_cleanup_failed = codes "document_storage_cleanup_failed"

-- `DeletionErrorCode(error_code)`; `none` is its `ValueError`
unfoldable pub parse_error_code : Text → Option DeletionErrorCode
unfolding value_of
parse_error_code t =
    if text_eq t (value_of DeletionErrorCode.document_vector_cleanup_failed)
    then some DeletionErrorCode.document_vector_cleanup_failed
    else if text_eq t (value_of DeletionErrorCode.document_storage_cleanup_failed)
    then some DeletionErrorCode.document_storage_cleanup_failed
    else none

unfoldable pub safe_deletion_failure_messages : DeletionErrorCode → Text
safe_deletion_failure_messages DeletionErrorCode.document_vector_cleanup_failed =
    codes "Document vector cleanup failed. See server logs for the underlying error."
safe_deletion_failure_messages DeletionErrorCode.document_storage_cleanup_failed =
    codes "Document storage cleanup failed. See server logs for the underlying error."

unfoldable pub safe_deletion_failure_fallback : Text
safe_deletion_failure_fallback =
    codes "Document deletion failed. See server logs for the underlying error."

unfoldable pub sanitize_parsed : Option DeletionErrorCode → Text
sanitize_parsed none = safe_deletion_failure_fallback
sanitize_parsed (some code) = safe_deletion_failure_messages code

unfoldable pub sanitize_deletion_error : Option Text → Option Text
unfolding sanitize_parsed
sanitize_deletion_error none = none
sanitize_deletion_error (some error_code) = some (sanitize_parsed (parse_error_code error_code))

pub data DeletionRequestOutcome : Type 0 where
  document_not_found ingestion_active reindex_active created already_active already_deleted :
      DeletionRequestOutcome

pub record DeletionRequestResult : Type 0 where
  pub outcome : DeletionRequestOutcome
  pub job : Option DocumentDeletionJob

abbrev pub Reply : Type 0
Reply = Db × Result DbError DeletionRequestResult

abbrev pub answer : Db → DeletionRequestOutcome → Option DocumentDeletionJob → Reply
answer db outcome job = (db, ok (record { outcome = outcome; job = job }))

-- the latest ingestion job, if it is active
unfoldable pub latest_active_ingestion_job : Db → ℕ → Option IngestionJob
latest_active_ingestion_job db document_id = elim (latest_for document_id db.ingestion_jobs) [
  | none ↦ none
  | some latest ↦ if ingestion_running latest.status then some latest else none
]

-- `get_active_reindex_job` of reindex_scheduling_service.py
unfoldable pub get_active_reindex_job : Db → ℕ → Option ReindexJob
get_active_reindex_job db document_id = latest_active_for document_id db.reindex_jobs

unfoldable pub new_deletion_job : Env → ℕ → DocumentDeletionJob
new_deletion_job env document_id = record {
  id = env.uuid 0;
  document_id = document_id;
  status = DocumentDeletionStatus.pending;
  vector_cleanup_completed = false;
  storage_cleanup_completed = false;
  error_code = none;
  error_message = none;
  created_at = env.db_now;
  updated_at = env.db_now;
  completed_at = none;
}

-- `except IntegrityError`: rolled back, and the active job read again in a new transaction; `later`
-- is what others commit before it
unfoldable pub settle : DocumentDeletionJob → ℕ → (Db → Db) → Db × Option DbError → Reply
settle new_job document_id later (db, none) =
    answer db DeletionRequestOutcome.created (some new_job)
settle new_job document_id later (db, some (integrity_error c)) =
    answer (later db) DeletionRequestOutcome.already_active
      (latest_active_for document_id (later db).deletion_jobs)
settle new_job document_id later (db, some value_too_long) = (db, err value_too_long)

unfoldable pub open_deletion : Env → (Db → Db) → (Db → Db) → Db → ℕ → Reply
unfolding settle new_deletion_job
open_deletion env others later db document_id =
    let seen = others db in
    let new_job = new_deletion_job env document_id in
    settle new_job document_id later
      (commit seen (record seen { deletion_jobs = seen.deletion_jobs ++ new_job ∷ [] }))

-- neither an ingestion nor a re-index may be in flight
unfoldable pub request_idle :
    Env → (Db → Db) → (Db → Db) → Db → ℕ → Option IngestionJob → Option ReindexJob → Reply
unfolding open_deletion
request_idle env others later db document_id (some ingestion) reindex =
    answer db DeletionRequestOutcome.ingestion_active none
request_idle env others later db document_id none (some reindex) =
    answer db DeletionRequestOutcome.reindex_active none
request_idle env others later db document_id none none =
    open_deletion env others later db document_id

unfoldable pub request_latest :
    Env → (Db → Db) → (Db → Db) → Db → ℕ → DocumentDeletionStatus → DocumentDeletionJob → Reply
unfolding request_idle latest_active_ingestion_job get_active_reindex_job
request_latest env others later db document_id DocumentDeletionStatus.completed latest =
    answer db DeletionRequestOutcome.already_deleted (some latest)
request_latest env others later db document_id DocumentDeletionStatus.pending latest =
    answer db DeletionRequestOutcome.already_active (some latest)
request_latest env others later db document_id DocumentDeletionStatus.processing latest =
    answer db DeletionRequestOutcome.already_active (some latest)
request_latest env others later db document_id DocumentDeletionStatus.partially_failed latest =
    request_idle env others later db document_id (latest_active_ingestion_job db document_id)
      (get_active_reindex_job db document_id)

unfoldable pub request_after :
    Env → (Db → Db) → (Db → Db) → Db → ℕ → Option DocumentDeletionJob → Reply
unfolding request_latest request_idle latest_active_ingestion_job get_active_reindex_job
request_after env others later db document_id none =
    request_idle env others later db document_id (latest_active_ingestion_job db document_id)
      (get_active_reindex_job db document_id)
request_after env others later db document_id (some latest) =
    request_latest env others later db document_id latest.status latest

unfoldable pub request_found : Env → (Db → Db) → (Db → Db) → Db → ℕ → Option Document → Reply
unfolding request_after
request_found env others later db document_id none =
    answer db DeletionRequestOutcome.document_not_found none
request_found env others later db document_id (some document) =
    request_after env others later db document_id (latest_for document_id db.deletion_jobs)

unfoldable pub request_document_deletion : Env → (Db → Db) → (Db → Db) → Db → ℕ → Reply
unfolding request_found
request_document_deletion env others later db document_id =
    request_found env others later db document_id (get document_id db.documents)
