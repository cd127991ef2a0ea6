-- ===== src/Reconciliation/Audit/Outcomes.antt =====
-- What an audit of app/services/reconciliation/document_audit_service.py says and when.
use documents_rag.Base.{
  ℕ, ◌≡◌, refl, ap, ◌∙◌, Bool, true, false, not, ◌&&◌, ◌||◌, List, [], ◌∷◌, ◌++◌, Option, none,
  some, Result, ok, err, Text, any, select, map, arith, if◌then◌else◌,
}
use documents_rag.Db.{Db}
use documents_rag.Db.Env.{Env}
use documents_rag.Db.Lookup.{any-append}
use documents_rag.Db.Models.{
  Document, IngestionJob, IngestionStatus, DocumentDeletionJob, ReindexJob, VectorCleanupJob,
  document_key, ingestion_row, deletion_row, reindex_row,
}
use documents_rag.Db.Rows.{get, latest_for}
use documents_rag.External.{VectorStore, FileStorage, StorageError}
use documents_rag.Indexing.Vectors.{get_pending_cleanup_jobs, in_list}
use documents_rag.Reconciliation.Audit.{
  is_error, table_findings, check_storage, check_vectors, audit_document_lifecycle, audit_loaded,
}
use documents_rag.Reconciliation.Findings.{AuditOverallStatus, deletion_finding}
use documents_rag.Reconciliation.Lifecycle.{
  is_deleted, deletion_findings, ingestion_findings, index_metadata_complete, reindex_findings,
  cleanup_findings, cleanup_collections, cleanup_incomplete,
}
use documents_rag.Reconciliation.Remote.{storage_check, count_check, size_check, vector_check}
use documents_rag.Storage.Keys.{resolve_document_storage_key}

abbrev pub answered {ℓ κ} : {E : Type ℓ} {A : Type κ} → Result E A → Bool
answered (ok a) = true
answered (err e) = false

-- the latest ingestion completed, but the index metadata is not all there
abbrev pub is_unindexed : Document → Option IngestionJob → Bool
is_unindexed document none = false
is_unindexed document (some job) = elim job.status [
  | IngestionStatus.completed ↦ not (index_metadata_complete document)
  | _ ↦ false
]

errors_of_deletion :
    (job : Option DocumentDeletionJob) → any is_error (deletion_findings job) ≡ false
unfolding deletion_finding
errors_of_deletion none = refl
errors_of_deletion (some job) = ground arith

errors_of_ingestion :
    (env : Env) (n : ℕ) (document : Document) (job : Option IngestionJob)
    → any is_error (ingestion_findings env n document job) ≡ is_unindexed document job
unfolding ingestion_findings
errors_of_ingestion env n document none = refl
errors_of_ingestion env n document (some job) = ground arith

module _ (repr : Text → Text) where
  errors_of_reindex :
      (job : Option ReindexJob) (pending : List VectorCleanupJob)
      → any is_error (reindex_findings repr job pending) ≡ false
  unfolding reindex_findings
  errors_of_reindex none pending = refl
  errors_of_reindex (some job) pending = ground arith

  errors_of_cleanups :
      (jobs : List VectorCleanupJob) → any is_error (map (cleanup_incomplete repr) jobs) ≡ false
  errors_of_cleanups [] = refl
  errors_of_cleanups (j ∷ js) = errors_of_cleanups js

  errors_of_cleanup :
      (names : List Text) (pending : List VectorCleanupJob)
      → any is_error (cleanup_findings repr names pending) ≡ false
  unfolding cleanup_findings
  errors_of_cleanup names pending =
      errors_of_cleanups
        (select (λ (c : VectorCleanupJob). not (in_list c.collection_name names)) pending)

  errors_of_tables :
      (env : Env) (n : ℕ) (document : Document) (ingestion : Option IngestionJob)
      (deletion : Option DocumentDeletionJob) (reindex : Option ReindexJob)
      (pending : List VectorCleanupJob)
      → any is_error (table_findings repr env n document ingestion deletion reindex pending)
        ≡ is_unindexed document ingestion
  unfolding table_findings
  errors_of_tables env n document ingestion deletion reindex pending =
      any-append is_error (deletion_findings deletion) _
      ∙ ground (
        arith,
        errors_of_deletion deletion,
        any-append is_error (ingestion_findings env n document ingestion) (
            reindex_findings repr reindex pending
            ++ cleanup_findings repr (cleanup_collections reindex) pending),
        any-append is_error (reindex_findings repr reindex pending)
            (cleanup_findings repr (cleanup_collections reindex) pending),
        errors_of_ingestion env n document ingestion,
        errors_of_reindex reindex pending,
        errors_of_cleanup (cleanup_collections reindex) pending,
      )

module _ (repr : Text → Text) (store : VectorStore) (files : FileStorage) where
  -- the storage answers, and no object stands at the document's key
  abbrev pub object_lost : Document → files.State → Bool
  object_lost document f =
      let key = resolve_document_storage_key document in
      answered (files.exists key f) && not (files.holds f key)

  -- the vector store answers, and the collection or the document's vectors in it are gone
  abbrev pub vectors_lost_in : store.State → ℕ → Text → Result Text (Option ℕ) → Bool
  vectors_lost_in v document_id collection (err e) = false
  vectors_lost_in v document_id collection (ok none) = true
  vectors_lost_in v document_id collection (ok (some size)) =
      answered (store.count_document_vectors collection document_id v)
      && not (store.holds v collection document_id)

  abbrev pub vectors_lost : store.State → ℕ → Option Text → Bool
  vectors_lost v document_id none = false
  vectors_lost v document_id (some collection) =
      vectors_lost_in v document_id collection (store.get_collection_vector_size collection v)

  errors_of_storage :
      (key : Text) (f : files.State) (r : Result StorageError Bool)
      → files.exists key f ≡ r
      → any is_error (storage_check r).1 ≡ answered r && not (files.holds f key)
  unfolding storage_check
  errors_of_storage key f (err e) h = refl
  errors_of_storage key f (ok b) h = ground (arith, files.exists-holds key f b h)

  errors_of_count :
      (c : Text) (d : ℕ) (v : store.State) (r : Result Text ℕ)
      → store.count_document_vectors c d v ≡ r
      → any is_error (count_check r).1 ≡ answered r && not (store.holds v c d)
  unfolding count_check
  errors_of_count c d v (err e) h = refl
  errors_of_count c d v (ok n) h = ground (arith, store.count-holds c d v n h)

  errors_of_size :
      (v : store.State) (c : Text) (d : ℕ) (r : Result Text (Option ℕ))
      → any is_error (size_check repr store v c d r).1 ≡ vectors_lost_in v d c r
  unfolding size_check
  errors_of_size v c d (err e) = refl
  errors_of_size v c d (ok none) = refl
  errors_of_size v c d (ok (some n)) =
      errors_of_count c d v (store.count_document_vectors c d v) refl

  errors_of_vectors :
      (v : store.State) (d : ℕ) (c : Option Text)
      → any is_error (vector_check repr store v d c).1 ≡ vectors_lost v d c
  unfolding vector_check
  errors_of_vectors v d none = refl
  errors_of_vectors v d (some c) = errors_of_size v c d (store.get_collection_vector_size c v)

  -- what the audit is to find out, said of the tables and of the two stores
  abbrev pub is_drifted : Db → files.State → store.State → ℕ → Document → Bool
  is_drifted db f v document_id document =
      is_unindexed document (latest_for document_id db.ingestion_jobs)
      || (not (is_deleted (latest_for document_id db.deletion_jobs))
          && (object_lost document f || vectors_lost v document.id document.collection_name))

  abbrev pub verdict : Db → files.State → store.State → ℕ → Option Document → AuditOverallStatus
  verdict db f v document_id none = AuditOverallStatus.not_found
  verdict db f v document_id (some document) =
      if is_drifted db f v document_id document
      then AuditOverallStatus.inconsistent
      else AuditOverallStatus.consistent

  errors_of_checks :
      (deleted : Bool) (document : Document) (f : files.State) (v : store.State)
      → any is_error (
          (check_storage repr store files deleted document f).1
          ++ (check_vectors repr store files deleted document v).1)
        ≡ not deleted
          && (object_lost document f || vectors_lost v document.id document.collection_name)
  unfolding check_storage check_vectors
  errors_of_checks true document f v = refl
  errors_of_checks false document f v =
      let key = resolve_document_storage_key document in
      any-append is_error (storage_check (files.exists key f)).1 _
      ∙ ground (
        arith,
        errors_of_storage key f (files.exists key f) refl,
        errors_of_vectors v document.id document.collection_name,
      )

  verdict_of :
      (env : Env) (n : ℕ) (db : Db) (f : files.State) (v : store.State) (document_id : ℕ)
      (found : Option Document)
      → (audit_loaded repr store files env n db f v document_id found).overall_status
        ≡ verdict db f v document_id found
  unfolding audit_loaded
  verdict_of env n db f v document_id none = refl
  verdict_of env n db f v document_id (some document) =
      let ingestion = latest_for document_id db.ingestion_jobs in
      let deletion = latest_for document_id db.deletion_jobs in
      let reindex = latest_for document_id db.reindex_jobs in
      let pending = get_pending_cleanup_jobs db (some document_id) in
      ap (λ b. if b then AuditOverallStatus.inconsistent else AuditOverallStatus.consistent)
        (any-append is_error (table_findings repr env n document ingestion deletion reindex pending)
            _
          ∙ ground (
            arith,
            errors_of_tables repr env n document ingestion deletion reindex pending,
            errors_of_checks (is_deleted deletion) document f v,
          ))

  -- An audit answers NOT_FOUND exactly for a document without a row, and INCONSISTENT exactly if
  -- the latest ingestion completed without full index metadata, or the deletion is not completed
  -- and the object, the collection or the document's vectors in it are gone from a store that
  -- answers; otherwise it answers CONSISTENT.
  pub audit_document_lifecycle-verdict :
      (env : Env) (stale_after_seconds : ℕ) (db : Db) (f : files.State) (v : store.State)
      (document_id : ℕ)
      → (audit_document_lifecycle repr store files env stale_after_seconds db f v
          document_id).overall_status
        ≡ verdict db f v document_id (get document_id db.documents)
  unfolding audit_document_lifecycle
  audit_document_lifecycle-verdict env n db f v document_id =
      verdict_of env n db f v document_id (get document_id db.documents)
