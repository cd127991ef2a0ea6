-- ===== src/Documents/Views.antt =====
-- app/services/documents/query_service.py: the detail, ingestion and failure views of a document,
-- with the HTTP status of each.
use documents_rag.Base.{ℕ, Option, none, some, Text, is_some}
use documents_rag.Db.{Db}
use documents_rag.Db.Models.{
  Document, IngestionJob, IngestionStatus, DocumentDeletionJob, document_key, ingestion_row,
  deletion_row,
}
use documents_rag.Db.Rows.{get}
use documents_rag.Documents.Query.{
  DocumentLifecycleStatus, derive_lifecycle_status, sanitize_ingestion_error,
  get_latest_ingestion_job, get_latest_deletion_job, get_latest_failed_ingestion_job, option_map,
}
pub mod Outcomes

pub record DocumentDetailResponse : Type 0 where
  pub id : ℕ
  pub original_filename : Text
  pub content_type : Text
  pub size_bytes : ℕ
  pub storage_provider : Option Text
  pub status : DocumentLifecycleStatus
  pub collection_name : Option Text
  pub embedding_version : Option Text
  pub chunking_version : Option Text
  pub indexed_at : Option ℕ
  pub latest_ingestion_job_id : Option ℕ
  pub latest_ingestion_status : Option IngestionStatus
  pub created_at : ℕ

pub record DocumentDetailResult : Type 0 where
  pub response : Option DocumentDetailResponse
  pub status_code : ℕ

abbrev pub detail_of :
    Document → Option IngestionJob → Option DocumentDeletionJob → DocumentDetailResponse
detail_of document latest_job latest_deletion_job = record {
  id = document.id;
  original_filename = document.original_filename;
  content_type = document.content_type;
  size_bytes = document.file_size;
  storage_provider = document.storage_provider;
  status = derive_lifecycle_status document latest_job latest_deletion_job;
  collection_name = document.collection_name;
  embedding_version = document.embedding_version;
  chunking_version = document.chunking_version;
  indexed_at = document.indexed_at;
  latest_ingestion_job_id = option_map (λ (j : IngestionJob). j.id) latest_job;
  latest_ingestion_status = option_map (λ (j : IngestionJob). j.status) latest_job;
  created_at = document.created_at;
}

unfoldable pub detail_found : Db → ℕ → Option Document → DocumentDetailResult
detail_found db document_id none = record { response = none; status_code = 404 }
detail_found db document_id (some document) = record {
  response = some (
      detail_of document (get_latest_ingestion_job db document_id)
        (get_latest_deletion_job db document_id));
  status_code = 200;
}

unfoldable pub get_document_detail_result : Db → ℕ → DocumentDetailResult
unfolding detail_found
get_document_detail_result db document_id =
    detail_found db document_id (get document_id db.documents)

pub record IngestionStatusResponse : Type 0 where
  pub document_id : ℕ
  pub job_id : Option ℕ
  pub status : Option IngestionStatus
  pub created_at : Option ℕ
  pub updated_at : Option ℕ

pub record DocumentIngestionResult : Type 0 where
  pub response : Option IngestionStatusResponse
  pub status_code : ℕ

abbrev pub ingestion_of : ℕ → Option IngestionJob → IngestionStatusResponse
ingestion_of document_id latest_job = record {
  document_id = document_id;
  job_id = option_map (λ (j : IngestionJob). j.id) latest_job;
  status = option_map (λ (j : IngestionJob). j.status) latest_job;
  created_at = option_map (λ (j : IngestionJob). j.created_at) latest_job;
  updated_at = option_map (λ (j : IngestionJob). j.updated_at) latest_job;
}

unfoldable pub ingestion_found : Db → ℕ → Option Document → DocumentIngestionResult
ingestion_found db document_id none = record { response = none; status_code = 404 }
ingestion_found db document_id (some document) = record {
  response = some (ingestion_of document_id (get_latest_ingestion_job db document_id));
  status_code = 200;
}

unfoldable pub get_document_ingestion_result : Db → ℕ → DocumentIngestionResult
unfolding ingestion_found
get_document_ingestion_result db document_id =
    ingestion_found db document_id (get document_id db.documents)

pub record IngestionFailureResponse : Type 0 where
  pub document_id : ℕ
  pub job_id : ℕ
  pub status : IngestionStatus
  pub safe_message : Text
  pub failed_at : ℕ

pub record DocumentFailureResult : Type 0 where
  pub response : Option IngestionFailureResponse
  pub status_code : ℕ

unfoldable pub failure_of : ℕ → Option IngestionJob → DocumentFailureResult
failure_of document_id none = record { response = none; status_code = 404 }
failure_of document_id (some failed_job) = record {
  response = some (record {
    document_id = document_id;
    job_id = failed_job.id;
    status = failed_job.status;
    safe_message = sanitize_ingestion_error failed_job.error_message;
    failed_at = failed_job.updated_at;
  });
  status_code = 200;
}

unfoldable pub failure_found : Db → ℕ → Option Document → DocumentFailureResult
unfolding failure_of
failure_found db document_id none = record { response = none; status_code = 404 }
failure_found db document_id (some document) =
    failure_of document_id (get_latest_failed_ingestion_job db document_id)

unfoldable pub get_document_failure_result : Db → ℕ → DocumentFailureResult
unfolding failure_found
get_document_failure_result db document_id =
    failure_found db document_id (get document_id db.documents)
