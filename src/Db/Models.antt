-- ===== src/Db/Models.antt =====
-- The tables of app/models/: one record for each row class, one data type for each status.
-- Times are microseconds since the epoch, UUIDs are numbers (see Db/Rows), texts are code points.
use documents_rag.Base.{ℕ, Bool, true, false, Option, Text}
use documents_rag.Db.Rows.{Keyed, Row}

pub data IngestionStatus : Type 0 where
  pending processing completed failed : IngestionStatus

pub record IngestionJob : Type 0 where
  pub id : ℕ
  pub document_id : ℕ
  pub status : IngestionStatus
  pub error_message : Option Text
  pub created_at : ℕ
  pub updated_at : ℕ

pub data DocumentDeletionStatus : Type 0 where
  pending processing partially_failed completed : DocumentDeletionStatus

pub record DocumentDeletionJob : Type 0 where
  pub id : ℕ
  pub document_id : ℕ
  pub status : DocumentDeletionStatus
  pub vector_cleanup_completed : Bool
  pub storage_cleanup_completed : Bool
  pub error_code : Option Text
  pub error_message : Option Text
  pub created_at : ℕ
  pub updated_at : ℕ
  pub completed_at : Option ℕ

pub data ReindexJobStatus : Type 0 where
  pending processing completed failed : ReindexJobStatus

pub record ReindexJob : Type 0 where
  pub id : ℕ
  pub document_id : ℕ
  pub source_collection_name : Text
  pub target_collection_name : Text
  pub target_chunk_size : ℕ
  pub target_chunk_overlap : ℕ
  pub status : ReindexJobStatus
  pub error_message : Option Text
  pub created_at : ℕ
  pub updated_at : ℕ
  pub completed_at : Option ℕ
  pub activated_at : Option ℕ

pub data VectorCleanupStatus : Type 0 where
  pending failed completed : VectorCleanupStatus

pub record VectorCleanupJob : Type 0 where
  pub id : ℕ
  pub document_id : ℕ
  pub collection_name : Text
  pub status : VectorCleanupStatus
  pub attempts : ℕ
  pub last_error : Option Text
  pub created_at : ℕ
  pub completed_at : Option ℕ

pub data IndexCollectionStatus : Type 0 where
  active retired : IndexCollectionStatus

pub record IndexCollection : Type 0 where
  pub collection_name : Text
  pub embedding_provider : Text
  pub embedding_model : Text
  pub embedding_dimension : ℕ
  pub embedding_version : Text
  pub chunking_version : Text
  pub status : IndexCollectionStatus
  pub created_at : ℕ

pub record Document : Type 0 where
  pub id : ℕ
  pub original_filename : Text
  pub stored_filename : Text
  pub content_type : Text
  pub file_size : ℕ
  pub stored_path : Text
  pub created_at : ℕ
  pub storage_provider : Option Text
  pub storage_bucket : Option Text
  pub storage_key : Option Text
  pub storage_etag : Option Text
  pub content_hash : Option Text
  pub embedding_provider : Option Text
  pub embedding_model : Option Text
  pub embedding_dimension : Option ℕ
  pub embedding_version : Option Text
  pub chunking_version : Option Text
  pub collection_name : Option Text
  pub indexed_at : Option ℕ

-- `status IN ('pending', 'processing')`
abbrev pub ingestion_active : IngestionStatus → Bool
ingestion_active IngestionStatus.pending = true
ingestion_active IngestionStatus.processing = true
ingestion_active _ = false

abbrev pub deletion_active : DocumentDeletionStatus → Bool
deletion_active DocumentDeletionStatus.pending = true
deletion_active DocumentDeletionStatus.processing = true
deletion_active _ = false

abbrev pub reindex_active : ReindexJobStatus → Bool
reindex_active ReindexJobStatus.pending = true
reindex_active ReindexJobStatus.processing = true
reindex_active _ = false

instance abbrev pub ingestion_row : Row IngestionJob
ingestion_row = record {
  id = λ j. j.id;
  document_id = λ j. j.document_id;
  created_at = λ j. j.created_at;
  is_active = λ j. ingestion_active j.status;
}

instance abbrev pub deletion_row : Row DocumentDeletionJob
deletion_row = record {
  id = λ j. j.id;
  document_id = λ j. j.document_id;
  created_at = λ j. j.created_at;
  is_active = λ j. deletion_active j.status;
}

instance abbrev pub reindex_row : Row ReindexJob
reindex_row = record {
  id = λ j. j.id;
  document_id = λ j. j.document_id;
  created_at = λ j. j.created_at;
  is_active = λ j. reindex_active j.status;
}

instance abbrev pub ingestion_key : Keyed IngestionJob
ingestion_key = record { id = λ j. j.id }

instance abbrev pub deletion_key : Keyed DocumentDeletionJob
deletion_key = record { id = λ j. j.id }

instance abbrev pub reindex_key : Keyed ReindexJob
reindex_key = record { id = λ j. j.id }

instance abbrev pub cleanup_key : Keyed VectorCleanupJob
cleanup_key = record { id = λ j. j.id }

instance abbrev pub document_key : Keyed Document
document_key = record { id = λ j. j.id }
