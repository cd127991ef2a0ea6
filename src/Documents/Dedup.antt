-- ===== src/Documents/Dedup.antt =====
-- app/services/documents/dedup_service.py
use documents_rag.Base.{
  ℕ, Bool, true, false, Option, none, some, Result, ok, err, Text, select, first,
}
use documents_rag.Db.{Db, Constraint, DbError, integrity_error, same_text}
use documents_rag.Db.Models.{
  Document, DocumentDeletionJob, DocumentDeletionStatus, IngestionJob, IngestionStatus,
  ingestion_row, deletion_row,
}
use documents_rag.Db.Rows.{latest_for}

pub data UploadOutcome : Type 0 where
  created reused_active reused_indexed reused_failed : UploadOutcome

pub record UploadDecision : Type 0 where
  pub outcome : UploadOutcome
  pub document : Option Document
  pub ingestion_job : Option IngestionJob

-- What an upload raises: the exceptions of this module, the `RuntimeError` for a document without
-- a job, and those of the storage and the database.
pub data UploadError : Type 0 where
  deletion_active deletion_incomplete deletion_invariant_violation no_ingestion_job :
      ℕ → UploadError
  missing_winner_after_race storage_error : Text → UploadError
  db_error : DbError → UploadError
  assertion_failed : UploadError

abbrev pub is_content_hash_violation : DbError → Bool
is_content_hash_violation (integrity_error Constraint.content_hash) = true
is_content_hash_violation _ = false

unfoldable pub find_document_by_content_hash : Db → Text → Option Document
find_document_by_content_hash db content_hash =
    first (select (λ (d : Document). same_text d.content_hash (some content_hash)) db.documents)

abbrev pub reuse_outcome : IngestionStatus → UploadOutcome
reuse_outcome IngestionStatus.pending = UploadOutcome.reused_active
reuse_outcome IngestionStatus.processing = UploadOutcome.reused_active
reuse_outcome IngestionStatus.completed = UploadOutcome.reused_indexed
reuse_outcome IngestionStatus.failed = UploadOutcome.reused_failed

-- no deletion job: the latest ingestion job tells
unfoldable pub decide_reuse : Document → Option IngestionJob → Result UploadError UploadDecision
decide_reuse document none = err (UploadError.no_ingestion_job document.id)
decide_reuse document (some job) = ok (record {
  outcome = reuse_outcome job.status;
  document = some document;
  ingestion_job = some job;
})

unfoldable pub decide_known :
    Document → Option DocumentDeletionJob → Option IngestionJob → Result UploadError UploadDecision
unfolding decide_reuse
decide_known document none latest_job = decide_reuse document latest_job
decide_known document (some deletion) latest_job = elim deletion.status [
  | DocumentDeletionStatus.pending ↦ err (UploadError.deletion_active document.id)
  | DocumentDeletionStatus.processing ↦ err (UploadError.deletion_active document.id)
  | DocumentDeletionStatus.partially_failed ↦ err (UploadError.deletion_incomplete document.id)
  | DocumentDeletionStatus.completed ↦ err (UploadError.deletion_invariant_violation document.id)
]

unfoldable pub decide_found : Db → Option Document → Result UploadError UploadDecision
unfolding decide_known
decide_found db none =
    ok (record { outcome = UploadOutcome.created; document = none; ingestion_job = none })
decide_found db (some document) =
    decide_known document (latest_for document.id db.deletion_jobs)
      (latest_for document.id db.ingestion_jobs)

unfoldable pub decide_upload : Db → Text → Result UploadError UploadDecision
unfolding decide_found find_document_by_content_hash
decide_upload db content_hash = decide_found db (find_document_by_content_hash db content_hash)
