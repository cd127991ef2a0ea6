-- ===== src/Documents/Download.antt =====
-- app/services/documents/download_service.py
pub mod Outcomes
use documents_rag.Base.{
  ℕ, Bool, true, false, List, Option, none, some, Result, ok, err, Text, codes, if◌then◌else◌,
}
use documents_rag.Db.{Db}
use documents_rag.Db.Models.{
  Document, DocumentDeletionJob, DocumentDeletionStatus, document_key, deletion_row,
}
use documents_rag.Db.Rows.{get, latest_for}
use documents_rag.External.{
  FileStorage, StorageError, object_not_found, storage_unavailable, read_failed,
}
use documents_rag.Storage.Keys.{resolve_document_storage_key}

pub record DocumentDownloadResult : Type 0 where
  pub status_code : ℕ
  pub content : Option (List ℕ)
  pub content_type : Option Text
  pub original_filename : Option Text
  pub detail : Option Text

abbrev pub refused : ℕ → Text → DocumentDownloadResult
refused status_code detail = record {
  status_code = status_code;
  content = none;
  content_type = none;
  original_filename = none;
  detail = some detail;
}

-- `latest_deletion_job is not None and latest_deletion_job.status == COMPLETED`
abbrev pub was_deleted : Option DocumentDeletionJob → Bool
was_deleted none = false
was_deleted (some job) = elim job.status [ DocumentDeletionStatus.completed ↦ true | _ ↦ false ]

abbrev pub resolve_download_key : Document → Text
resolve_download_key document = resolve_document_storage_key document

-- an exception that no branch catches leaves the call
unfoldable pub download_read :
    Document
    → Result (Option StorageError) (List ℕ)
    → Result (Option StorageError) DocumentDownloadResult
download_read document (ok content) = ok (record {
  status_code = 200;
  content = some content;
  content_type = some document.content_type;
  original_filename = some document.original_filename;
  detail = none;
})
download_read document (err none) = err none
download_read document (err (some e)) = elim e [
  | object_not_found ↦
      ok (refused 409 (codes "Document exists but its content is unavailable in storage."))
  | storage_unavailable ↦ ok (refused 503 (codes "Storage backend is unavailable."))
  | read_failed ↦ ok (refused 503 (codes "Storage backend is unavailable."))
  | other ↦ err (some other)
]

module _ (files : FileStorage) where
  unfoldable pub download_found :
      Db → ℕ → files.State → Option Document → Result (Option StorageError) DocumentDownloadResult
  unfolding download_read
  download_found db document_id f none = ok (refused 404 (codes "Document not found."))
  download_found db document_id f (some document) =
      if was_deleted (latest_for document_id db.deletion_jobs)
      then ok (refused 410 (codes "Document has been deleted."))
      else download_read document (files.read (resolve_download_key document) f)

  unfoldable pub download_document :
      Db → ℕ → files.State → Result (Option StorageError) DocumentDownloadResult
  unfolding download_found
  download_document db document_id f =
      download_found db document_id f (get document_id db.documents)
