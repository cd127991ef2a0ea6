-- ===== src/Documents/Query.antt =====
-- app/services/documents/query_service.py, and the batch lookup of deletion_service.py.
pub mod Batch
pub mod Outcomes
use documents_rag.Base.{
  ℕ, Bool, true, ltb, ◌==◌, ◌&&◌, ◌||◌, not, List, [], ◌∷◌, Option, none, some, Text, codes, any,
  select, map, take, drop, length, if◌then◌else◌, first,
}
use documents_rag.Db.{Db}
use documents_rag.Db.Models.{
  Document, IngestionJob, IngestionStatus, DocumentDeletionJob, DocumentDeletionStatus,
  ingestion_row, deletion_row, document_key,
}
use documents_rag.Db.Rows.{Row, is_later, order_by, order_desc, latest_for, get}

pub data DocumentLifecycleStatus : Type 0 where
  uploaded pending processing indexed failed deleting deletion_failed deleted :
      DocumentLifecycleStatus

unfoldable pub ingestion_lifecycle : Option IngestionJob → DocumentLifecycleStatus
ingestion_lifecycle none = DocumentLifecycleStatus.uploaded
ingestion_lifecycle (some job) = elim job.status [
  | IngestionStatus.pending ↦ DocumentLifecycleStatus.pending
  | IngestionStatus.processing ↦ DocumentLifecycleStatus.processing
  | IngestionStatus.failed ↦ DocumentLifecycleStatus.failed
  | IngestionStatus.completed ↦ DocumentLifecycleStatus.indexed
]

-- The document itself is not looked at.
unfoldable pub derive_lifecycle_status :
    Document → Option IngestionJob → Option DocumentDeletionJob → DocumentLifecycleStatus
unfolding ingestion_lifecycle
derive_lifecycle_status document latest_job none = ingestion_lifecycle latest_job
derive_lifecycle_status document latest_job (some deletion) = elim deletion.status [
  | DocumentDeletionStatus.pending ↦ DocumentLifecycleStatus.deleting
  | DocumentDeletionStatus.processing ↦ DocumentLifecycleStatus.deleting
  | DocumentDeletionStatus.partially_failed ↦ DocumentLifecycleStatus.deletion_failed
  | DocumentDeletionStatus.completed ↦ DocumentLifecycleStatus.deleted
]

unfoldable pub sanitize_ingestion_error : Option Text → Text
sanitize_ingestion_error raw =
    codes "Document ingestion failed. See server logs for the underlying error."

-- `ORDER BY created_at DESC, id DESC`
abbrev pub newer_first : Document → Document → Bool
newer_first a b =
    not (ltb a.created_at b.created_at || ((a.created_at == b.created_at) && ltb a.id b.id))

unfoldable pub list_documents : Db → ℕ → ℕ → List Document × ℕ
list_documents db limit offset =
    (take limit (drop offset (order_by newer_first db.documents)), length db.documents)

abbrev pub get_latest_ingestion_job : Db → ℕ → Option IngestionJob
get_latest_ingestion_job db document_id = latest_for document_id db.ingestion_jobs

abbrev pub get_latest_deletion_job : Db → ℕ → Option DocumentDeletionJob
get_latest_deletion_job db document_id = latest_for document_id db.deletion_jobs

abbrev pub is_failed : IngestionStatus → Bool
is_failed IngestionStatus.failed = true
is_failed _ = Bool.false

unfoldable pub get_latest_failed_ingestion_job : Db → ℕ → Option IngestionJob
get_latest_failed_ingestion_job db document_id = first (
    order_desc (
      select (λ (j : IngestionJob). (j.document_id == document_id) && is_failed j.status)
        db.ingestion_jobs))

-- A dict from document ids to rows; the newest entry of a key stands first.
abbrev pub dict_get {ℓ} : {V : Type ℓ} → ℕ → List (ℕ × V) → Option V
dict_get k [] = none
dict_get k ((j, v) ∷ m) = if j == k then some v else dict_get k m

module _ {ℓ} {J : Type ℓ} ⦃r : Row J⦄ where
  -- `if current is None or (job.created_at, job.id) > (current.created_at, current.id)`
  abbrev pub put_if_later : List (ℕ × J) → J → Option J → List (ℕ × J)
  put_if_later m job none = (r.document_id job, job) ∷ m
  put_if_later m job (some current) =
      if is_later job current then (r.document_id job, job) ∷ m else m

  unfoldable pub collect_latest : List (ℕ × J) → List J → List (ℕ × J)
  collect_latest m [] = m
  collect_latest m (job ∷ jobs) =
      collect_latest (put_if_later m job (dict_get (r.document_id job) m)) jobs

  -- `WHERE document_id IN (...)`, and the loop
  unfoldable pub latest_by_document : List ℕ → List J → List (ℕ × J)
  unfolding collect_latest
  latest_by_document [] jobs = []
  latest_by_document (i ∷ ids) jobs =
      collect_latest [] (select (λ j. any (λ k. r.document_id j == k) (i ∷ ids)) jobs)

unfoldable pub get_latest_jobs_for_documents : Db → List ℕ → List (ℕ × IngestionJob)
get_latest_jobs_for_documents db document_ids = latest_by_document document_ids db.ingestion_jobs

unfoldable pub get_latest_deletion_jobs_for_documents : Db → List ℕ → List (ℕ × DocumentDeletionJob)
get_latest_deletion_jobs_for_documents db document_ids =
    latest_by_document document_ids db.deletion_jobs

pub record DocumentSummaryResponse : Type 0 where
  pub id : ℕ
  pub original_filename : Text
  pub content_type : Text
  pub size_bytes : ℕ
  pub status : DocumentLifecycleStatus
  pub created_at : ℕ
  pub latest_ingestion_activity_at : Option ℕ

abbrev pub option_map {ℓ κ} : {A : Type ℓ} {B : Type κ} → (A → B) → Option A → Option B
option_map f none = none
option_map f (some a) = some (f a)

unfoldable pub to_summary :
    Document → Option IngestionJob → Option DocumentDeletionJob → DocumentSummaryResponse
to_summary document latest_job latest_deletion_job = record {
  id = document.id;
  original_filename = document.original_filename;
  content_type = document.content_type;
  size_bytes = document.file_size;
  status = derive_lifecycle_status document latest_job latest_deletion_job;
  created_at = document.created_at;
  latest_ingestion_activity_at = option_map (λ (j : IngestionJob). j.updated_at) latest_job;
}

pub record DocumentListResponse : Type 0 where
  pub items : List DocumentSummaryResponse
  pub total : ℕ
  pub limit : ℕ
  pub offset : ℕ

unfoldable pub build_document_list_response : Db → ℕ → ℕ → DocumentListResponse
build_document_list_response db limit offset =
    let (documents, total) = list_documents db limit offset in
    let document_ids = map (λ (d : Document). d.id) documents in
    let latest_jobs = get_latest_jobs_for_documents db document_ids in
    let latest_deletion_jobs = get_latest_deletion_jobs_for_documents db document_ids in
    record {
      items =
          map
            (λ (d : Document).
              to_summary d (dict_get d.id latest_jobs) (dict_get d.id latest_deletion_jobs))
            documents;
      total = total;
      limit = limit;
      offset = offset;
    }
