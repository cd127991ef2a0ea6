-- ===== src/Reconciliation/Findings.antt =====
-- The vocabulary of app/services/reconciliation/document_audit_service.py: statuses, codes,
-- findings and the snapshots of a result.
use documents_rag.Base.{ℕ, Bool, false, List, [], ◌∷◌, ◌++◌, Option, none, Text, codes}
use documents_rag.Db.Models.{
  IngestionStatus, DocumentDeletionStatus, ReindexJobStatus, DocumentDeletionJob,
}
use documents_rag.Indexing.ReindexWorker.{deletion_value}

pub data AuditOverallStatus : Type 0 where
  not_found consistent inconsistent : AuditOverallStatus

pub data FindingSeverity : Type 0 where
  info warning error : FindingSeverity

pub data DocumentLifecycleFindingCode : Type 0 where
  document_missing object_missing storage_inspection_unavailable : DocumentLifecycleFindingCode
  active_collection_missing active_vectors_missing : DocumentLifecycleFindingCode
  vector_inspection_unavailable index_metadata_incomplete : DocumentLifecycleFindingCode
  ingestion_in_progress stale_ingestion_job deletion_pending : DocumentLifecycleFindingCode
  deletion_processing deletion_partially_failed : DocumentLifecycleFindingCode
  vector_cleanup_incomplete reindex_target_built_not_activated : DocumentLifecycleFindingCode
  reindex_cleanup_pending : DocumentLifecycleFindingCode

pub record DocumentLifecycleFinding : Type 0 where
  pub code : DocumentLifecycleFindingCode
  pub severity : FindingSeverity
  pub summary : Text
  pub expected_state : Text
  pub actual_state : Text
  pub suggested_action : Text
  pub destructive_risk : Bool

pub record PostgresLifecycleState : Type 0 where
  pub collection_name : Option Text
  pub document_created_at : ℕ
  pub latest_ingestion_status : Option IngestionStatus
  pub latest_deletion_status : Option DocumentDeletionStatus
  pub latest_reindex_status : Option ReindexJobStatus
  pub latest_reindex_activated : Bool
  pub pending_cleanup_collections : List Text

pub record StorageLifecycleState : Type 0 where
  pub inspected : Bool
  pub exists : Option Bool

pub record VectorLifecycleState : Type 0 where
  pub inspected : Bool
  pub collection_exists : Option Bool
  pub has_vectors : Option Bool
  pub vector_count : Option ℕ

pub record DocumentLifecycleAuditResult : Type 0 where
  pub document_id : ℕ
  pub overall_status : AuditOverallStatus
  pub findings : List DocumentLifecycleFinding
  pub postgres_state : Option PostgresLifecycleState
  pub storage_state : Option StorageLifecycleState
  pub vector_state : Option VectorLifecycleState

abbrev pub not_found_result : ℕ → DocumentLifecycleAuditResult
not_found_result document_id = record {
  document_id = document_id;
  overall_status = AuditOverallStatus.not_found;
  findings =
      record {
        code = document_missing;
        severity = FindingSeverity.error;
        summary = codes "No document row exists for this id.";
        expected_state = codes "A Document row exists.";
        actual_state = codes "No Document row was found.";
        suggested_action = codes "Verify the document id; no further inspection was performed.";
        destructive_risk = false;
      }
      ∷ [];
  postgres_state = none;
  storage_state = none;
  vector_state = none;
}

abbrev pub about_deletion :
    DocumentDeletionJob → DocumentLifecycleFindingCode → Text → DocumentLifecycleFinding
about_deletion job code summary = record {
  code = code;
  severity = FindingSeverity.warning;
  summary = summary;
  expected_state = codes "Deletion lifecycle is either not started or fully completed.";
  actual_state = codes "Latest deletion job status is " ++ (deletion_value job.status ++ codes ".");
  suggested_action =
      codes "Allow the existing deletion worker to process this job, or inspect it "
      ++ codes "via the deletion status endpoint; this audit never retries deletion.";
  destructive_risk = false;
}

-- `None` for a completed deletion
unfoldable pub deletion_finding : DocumentDeletionJob → List DocumentLifecycleFinding
deletion_finding job = elim job.status [
  | DocumentDeletionStatus.pending ↦
      about_deletion job deletion_pending
        (codes "A deletion has been requested but not yet started.")
      ∷ []
  | DocumentDeletionStatus.processing ↦
      about_deletion job deletion_processing (codes "Deletion is currently in progress.") ∷ []
  | DocumentDeletionStatus.partially_failed ↦
      about_deletion job deletion_partially_failed
        (codes "Deletion partially completed; some resources may remain.")
      ∷ []
  | DocumentDeletionStatus.completed ↦ []
]
