-- ===== src/Documents/Download/Outcomes.antt =====
-- What a download of app/services/documents/download_service.py answers, and what it lets through.
use documents_rag.Base.{
  ℕ, ◌≡◌, refl, Bool, true, false, ◌==◌, List, Option, none, some, Result, ok, err, is_some,
  if_holds, if◌then◌else◌,
}
use documents_rag.Db.{Db}
use documents_rag.Db.Models.{Document, document_key, deletion_row}
use documents_rag.Db.Rows.{get, latest_for}
use documents_rag.Documents.Download.{
  DocumentDownloadResult, download_document, download_found, download_read, was_deleted,
  resolve_download_key,
}
use documents_rag.External.{
  FileStorage, StorageError, object_not_found, storage_unavailable, read_failed,
}

-- the errors of the storage that a download answers itself
abbrev pub is_answered : Option StorageError → Bool
is_answered (some object_not_found) = true
is_answered (some storage_unavailable) = true
is_answered (some read_failed) = true
is_answered _ = false

abbrev pub content_of : Result (Option StorageError) (List ℕ) → Option (List ℕ)
content_of (ok content) = some content
content_of (err e) = none

module _ (files : FileStorage) (db : Db) (document_id : ℕ) (f : files.State) where
  -- what the storage holds of a document that is there and not deleted
  abbrev pub served : Option Document → Option (List ℕ)
  served none = none
  served (some document) =
      if was_deleted (latest_for document_id db.deletion_jobs)
      then none
      else content_of (files.read (resolve_download_key document) f)

  abbrev pub Raised : Option StorageError → Option Document → Type 0
  Raised e none = ⊥
  Raised e (some document) =
      (was_deleted (latest_for document_id db.deletion_jobs) ≡ false)
      × (files.read (resolve_download_key document) f ≡ err e)
      × (is_answered e ≡ false)

  abbrev pub Downloads :
      Option Document → Result (Option StorageError) DocumentDownloadResult → Type 0
  Downloads found (ok r) = (r.content ≡ served found) × ((r.status_code == 200) ≡ is_some r.content)
  Downloads found (err e) = Raised e found

  read-Downloads :
      (document : Document) (r : Result (Option StorageError) (List ℕ))
      → files.read (resolve_download_key document) f ≡ r
      → was_deleted (latest_for document_id db.deletion_jobs) ≡ false
      → Downloads (some document) (download_read document r)
  unfolding download_read
  read-Downloads document (ok content) h q = rw (q, h) (refl, refl)
  read-Downloads document (err none) h q = (q, h, refl)
  read-Downloads document (err (some object_not_found)) h q = rw (q, h) (refl, refl)
  read-Downloads document (err (some storage_unavailable)) h q = rw (q, h) (refl, refl)
  read-Downloads document (err (some read_failed)) h q = rw (q, h) (refl, refl)
  read-Downloads document (err (some StorageError.write_failed)) h q = (q, h, refl)
  read-Downloads document (err (some StorageError.delete_failed)) h q = (q, h, refl)
  read-Downloads document (err (some StorageError.metadata_failed)) h q = (q, h, refl)
  read-Downloads document (err (some StorageError.invalid_configuration)) h q = (q, h, refl)
  read-Downloads document (err (some StorageError.url_generation_failed)) h q = (q, h, refl)
  read-Downloads document (err (some StorageError.unsafe_key)) h q = (q, h, refl)

  found-Downloads :
      (found : Option Document) → Downloads found (download_found files db document_id f found)
  unfolding download_found
  found-Downloads none = (refl, refl)
  found-Downloads (some document) =
      if_holds (Downloads (some document)) (was_deleted (latest_for document_id db.deletion_jobs)) _
        _ (λ q. rw q (refl, refl))
        (λ q. read-Downloads document (files.read (resolve_download_key document) f) refl q)

  -- A download hands out exactly the stored content of a document that exists and whose deletion
  -- is not completed, with status 200 if and only if there is content; it raises only what the
  -- storage raised on reading such a document, and never a missing object, an unreachable backend
  -- or a failed read.
  pub download_document-Downloads :
      Downloads (get document_id db.documents) (download_document files db document_id f)
  unfolding download_document
  download_document-Downloads = found-Downloads (get document_id db.documents)
