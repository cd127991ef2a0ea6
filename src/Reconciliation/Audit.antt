-- ===== src/Reconciliation/Audit.antt =====
-- app/services/reconciliation/document_audit_service.py: the audit of one document.
pub mod Outcomes
pub mod Snapshots
use documents_rag.Base.{
  ℕ, Bool, true, false, List, [], ◌∷◌, ◌++◌, Option, none, some, Text, any, map, if◌then◌else◌,
  is_some,
}
use documents_rag.Db.{Db}
use documents_rag.Db.Env.{Env}
use documents_rag.Db.Models.{
  Document, IngestionJob, DocumentDeletionJob, ReindexJob, VectorCleanupJob, ingestion_row,
  deletion_row, reindex_row, document_key,
}
use documents_rag.Db.Rows.{get, latest_for}
use documents_rag.Documents.Query.{option_map}
use documents_rag.External.{VectorStore, FileStorage}
use documents_rag.Indexing.Vectors.{get_pending_cleanup_jobs}
use documents_rag.Reconciliation.Findings.{
  AuditOverallStatus, FindingSeverity, DocumentLifecycleFinding, DocumentLifecycleAuditResult,
  PostgresLifecycleState, not_found_result,
}
use documents_rag.Reconciliation.Lifecycle.{
  is_deleted, deletion_findings, ingestion_findings, reindex_findings, cleanup_findings,
  cleanup_collections,
}
use documents_rag.Reconciliation.Remote.{StorageCheck, VectorCheck, storage_check, vector_check}
use documents_rag.Storage.Keys.{resolve_document_storage_key}

abbrev pub is_error : DocumentLifecycleFinding → Bool
is_error finding = elim finding.severity [ FindingSeverity.error ↦ true | _ ↦ false ]

abbrev pub overall : List DocumentLifecycleFinding → AuditOverallStatus
overall findings =
    if any is_error findings then AuditOverallStatus.inconsistent else AuditOverallStatus.consistent

abbrev pub activated : Option ReindexJob → Bool
activated none = false
activated (some job) = is_some job.activated_at

module _ (repr : Text → Text) where
  -- the findings that the tables alone give, in the order of the code
  unfoldable pub table_findings :
      Env
      → ℕ
      → Document
      → Option IngestionJob
      → Option DocumentDeletionJob
      → Option ReindexJob
      → List VectorCleanupJob
      → List DocumentLifecycleFinding
  table_findings env stale_after_seconds document ingestion deletion reindex pending =
      deletion_findings deletion
      ++ (ingestion_findings env stale_after_seconds document ingestion
          ++ (reindex_findings repr reindex pending
              ++ cleanup_findings repr (cleanup_collections reindex) pending))

abbrev pub postgres_of :
    Document
    → Option IngestionJob
    → Option DocumentDeletionJob
    → Option ReindexJob
    → List VectorCleanupJob
    → PostgresLifecycleState
postgres_of document ingestion deletion reindex pending = record {
  collection_name = document.collection_name;
  document_created_at = document.created_at;
  latest_ingestion_status = option_map (λ (j : IngestionJob). j.status) ingestion;
  latest_deletion_status = option_map (λ (j : DocumentDeletionJob). j.status) deletion;
  latest_reindex_status = option_map (λ (j : ReindexJob). j.status) reindex;
  latest_reindex_activated = activated reindex;
  pending_cleanup_collections = map (λ (j : VectorCleanupJob). j.collection_name) pending;
}

unfoldable pub audit_result :
    ℕ
    → PostgresLifecycleState
    → List DocumentLifecycleFinding
    → StorageCheck
    → VectorCheck
    → DocumentLifecycleAuditResult
audit_result document_id postgres findings storage vectors =
    let all_findings = findings ++ (storage.1 ++ vectors.1) in
    record {
      document_id = document_id;
      overall_status = overall all_findings;
      findings = all_findings;
      postgres_state = some postgres;
      storage_state = storage.0;
      vector_state = vectors.0;
    }

module _ (repr : Text → Text) (store : VectorStore) (files : FileStorage) where
  -- the external checks are skipped for a deleted document
  unfoldable pub check_storage : Bool → Document → files.State → StorageCheck
  check_storage deletion_completed document f =
      if deletion_completed
      then (none, [])
      else storage_check (files.exists (resolve_document_storage_key document) f)

  unfoldable pub check_vectors : Bool → Document → store.State → VectorCheck
  check_vectors deletion_completed document v =
      if deletion_completed
      then (none, [])
      else vector_check repr store v document.id document.collection_name

  unfoldable pub audit_found :
      Env → ℕ → Db → files.State → store.State → ℕ → Document → DocumentLifecycleAuditResult
  unfolding audit_result
  audit_found env stale_after_seconds db f v document_id document =
      let ingestion = latest_for document_id db.ingestion_jobs in
      let deletion = latest_for document_id db.deletion_jobs in
      let reindex = latest_for document_id db.reindex_jobs in
      let pending = get_pending_cleanup_jobs db (some document_id) in
      audit_result document_id (postgres_of document ingestion deletion reindex pending)
        (table_findings repr env stale_after_seconds document ingestion deletion reindex pending)
        (check_storage (is_deleted deletion) document f)
        (check_vectors (is_deleted deletion) document v)

  unfoldable pub audit_loaded :
      Env → ℕ → Db → files.State → store.State → ℕ → Option Document → DocumentLifecycleAuditResult
  unfolding audit_found
  audit_loaded env stale_after_seconds db f v document_id none = not_found_result document_id
  audit_loaded env stale_after_seconds db f v document_id (some document) =
      audit_found env stale_after_seconds db f v document_id document

  unfoldable pub audit_document_lifecycle :
      Env → ℕ → Db → files.State → store.State → ℕ → DocumentLifecycleAuditResult
  unfolding audit_loaded
  audit_document_lifecycle env stale_after_seconds db f v document_id =
      audit_loaded env stale_after_seconds db f v document_id (get document_id db.documents)
