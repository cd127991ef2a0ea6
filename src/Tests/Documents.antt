-- ===== src/Tests/Documents.antt =====
-- A page of documents, a request for a deletion, and the deletion itself.
use documents_rag.Base.{
  ℕ, ◌≡◌, refl, List, [], ◌∷◌, none, some, true, false, is_some, Text, codes, map,
}
use documents_rag.Db.{Db}
use documents_rag.Db.Models.{
  DocumentDeletionJob, DocumentDeletionStatus, document_key, deletion_row,
}
use documents_rag.Db.Rows.{get, latest_for}
use documents_rag.Documents.Query.{build_document_list_response, list_documents}
use documents_rag.Documents.Query.Outcomes.{summary, build_document_list_response-items}
use documents_rag.Documents.Deletion.{
  new_deletion_job, request_document_deletion, latest_active_ingestion_job, get_active_reindex_job,
}
use documents_rag.Documents.Deletion.Requests.{
  MayDelete, Created, Opens, request_document_deletion-Created,
}
use documents_rag.Documents.Deletion.Worker.{
  Round, process_next_deletion, complete, vectors_done, set_status,
}
use documents_rag.Documents.Deletion.Worker.Outcomes.{
  Completes, ErasedClaimed, process_next_deletion-erases,
}
use documents_rag.Indexing.Vectors.{delete_all_tracked_document_vectors, collections_to_attempt}
use documents_rag.Tests.Data.{env, paper, failed_job, hung_job, with_jobs, schema}
use documents_rag.Tests.Stores.{files, vectors}

abbrev two_papers : Db
two_papers = record (with_jobs (failed_job ∷ hung_job ∷ [])) {
  documents =
      paper ∷ record paper { id = 2; stored_filename = codes "f2.txt"; content_hash = none } ∷ [];
}

build_document_list_response-items_example :
    (build_document_list_response two_papers 10 0).items
    ≡ map (summary two_papers) (list_documents two_papers 10 0).0
build_document_list_response-items_example = build_document_list_response-items two_papers 10 0

abbrev settled_db : Db
settled_db = with_jobs (failed_job ∷ [])

abbrev deletion : DocumentDeletionJob
deletion = new_deletion_job env 1

deletion_requested :
    Created deletion (request_document_deletion env (λ db. db) (λ db. db) settled_db 1)
unfolding schema request_document_deletion
deletion_requested = refl

request_document_deletion-Created_example :
    (is_some (get 1 settled_db.documents) ≡ true)
    × MayDelete (latest_for 1 settled_db.deletion_jobs)
    × (latest_active_ingestion_job settled_db 1 ≡ none)
    × (get_active_reindex_job settled_db 1 ≡ none)
    × Opens env 1 deletion (request_document_deletion env (λ db. db) (λ db. db) settled_db 1)
request_document_deletion-Created_example =
    request_document_deletion-Created env (λ db. db) (λ db. db) settled_db 1 deletion
      deletion_requested

abbrev pending_deletion : DocumentDeletionJob
pending_deletion = record {
  id = 30;
  document_id = 1;
  status = DocumentDeletionStatus.pending;
  vector_cleanup_completed = false;
  storage_cleanup_completed = false;
  error_code = none;
  error_message = none;
  created_at = 400;
  updated_at = 400;
  completed_at = none;
}

abbrev deleting_db : Db
deleting_db = record {
  documents = record paper { collection_name = some (codes "c1") } ∷ [];
  ingestion_jobs = failed_job ∷ [];
  deletion_jobs = pending_deletion ∷ [];
  reindex_jobs = [];
  cleanup_jobs = [];
  collections = [];
}

abbrev held_vectors : List (Text × ℕ)
held_vectors = (codes "c1", 1) ∷ (codes "c1", 2) ∷ []

abbrev held_files : List Text
held_files = codes "documents/1/f1.txt" ∷ []

abbrev finished : DocumentDeletionJob
finished =
    complete env
      (vectors_done env (set_status env DocumentDeletionStatus.processing pending_deletion))

abbrev deletion_round : Round vectors files
deletion_round =
    process_next_deletion vectors files env (λ i. false) deleting_db held_vectors held_files

deletion_finishes : Completes vectors files finished deletion_round
unfolding schema process_next_deletion delete_all_tracked_document_vectors collections_to_attempt
deletion_finishes = (refl, refl)

process_next_deletion-erases_example :
    ErasedClaimed vectors files env
      (λ i. false)
      deleting_db
      held_vectors
      held_files
      finished
      deletion_round
process_next_deletion-erases_example =
    process_next_deletion-erases vectors files env (λ i. false) deleting_db held_vectors held_files
      finished deletion_finishes
