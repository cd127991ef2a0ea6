-- ===== src/Documents/Deletion/Worker.antt =====
-- app/services/documents/deletion_worker.py: the runner of the deletion jobs.
pub mod Outcomes
use documents_rag.Base.{
  ℕ, Bool, true, false, not, ◌&&◌, leb, List, [], ◌∷◌, ◌++◌, Option, none, some, Result, ok, err,
  Text, codes, select, first, map, if◌then◌else◌,
}
use documents_rag.Db.{Db, DbError, commit}
use documents_rag.Db.Env.{Env}
use documents_rag.Db.Models.{
  Document, DocumentDeletionJob, DocumentDeletionStatus, document_key, deletion_key,
}
use documents_rag.Db.Rows.{get, order_by, update_row}
use documents_rag.Storage.Keys.{resolve_document_storage_key}
use documents_rag.External.{VectorStore, FileStorage, StorageRaised, translated, untranslated}
use documents_rag.Documents.Deletion.{DeletionErrorCode, value_of}
use documents_rag.Indexing.Vectors.{
  VectorDeletionResult, CollectionVectorDeletionResult, fully_deleted,
  delete_all_tracked_document_vectors,
}

abbrev pub is_pending : DocumentDeletionStatus → Bool
is_pending DocumentDeletionStatus.pending = true
is_pending _ = false

-- `ORDER BY created_at LIMIT 1`, `SKIP LOCKED`
unfoldable pub claim_next_deletion : (ℕ → Bool) → Db → Option DocumentDeletionJob
claim_next_deletion locked db = first (
    order_by (λ (a b : DocumentDeletionJob). leb a.created_at b.created_at)
      (select (λ (j : DocumentDeletionJob). is_pending j.status && not (locked j.id))
        db.deletion_jobs))

-- `", ".join(...)`
unfoldable pub join_comma : List Text → Text
join_comma [] = []
join_comma (t ∷ ts) = elim ts [ [] ↦ t | u ∷ us ↦ t ++ codes ", " ++ join_comma ts ]

abbrev pub error_text : Option Text → Text
error_text none = codes "None"
error_text (some e) = e

unfoldable pub vector_failure_message : VectorDeletionResult → Text
unfolding join_comma
vector_failure_message r =
    codes "Vector cleanup failed for collection(s): "
    ++ join_comma (
        map
          (λ (c : CollectionVectorDeletionResult).
            c.collection_name ++ codes ": " ++ error_text c.error)
          (select (λ (c : CollectionVectorDeletionResult). not c.succeeded) r.collection_results))

-- the assignments to the claimed row, each with its `onupdate`
abbrev pub set_status : Env → DocumentDeletionStatus → DocumentDeletionJob → DocumentDeletionJob
set_status env status job = record job { status = status; updated_at = env.db_now }

abbrev pub fail : Env → DeletionErrorCode → Text → DocumentDeletionJob → DocumentDeletionJob
fail env code message job = record job {
  status = DocumentDeletionStatus.partially_failed;
  error_code = some (value_of code);
  error_message = some message;
  updated_at = env.db_now;
}

abbrev pub vectors_done : Env → DocumentDeletionJob → DocumentDeletionJob
vectors_done env job = record job { vector_cleanup_completed = true; updated_at = env.db_now }

abbrev pub complete : Env → DocumentDeletionJob → DocumentDeletionJob
complete env job = record job {
  storage_cleanup_completed = true;
  status = DocumentDeletionStatus.completed;
  completed_at = some env.now;
  error_code = none;
  error_message = none;
  updated_at = env.db_now;
}

abbrev pub write_deletion : ℕ → (DocumentDeletionJob → DocumentDeletionJob) → Db → Db
write_deletion i f db = record db { deletion_jobs = update_row i f db.deletion_jobs }

-- `document.content_hash = None`
abbrev pub release_hash : ℕ → Db → Db
release_hash i db = record db {
  documents = update_row i (λ (d : Document). record d { content_hash = none }) db.documents;
}

abbrev pub not_found_message : Env → ℕ → Text
not_found_message env d =
    codes "Document " ++ env.show_uuid d ++ codes " not found during deletion execution."

-- What a round raises: a commit that is refused, or what the storage raises that is not a
-- StorageError. The latter leaves what was committed before the delete.
pub data DeletionRaised : Type 0 where
  db_raised : DbError → DeletionRaised
  storage_raised : Text → DeletionRaised

module _ (store : VectorStore) (files : FileStorage) where
  -- what one call leaves: the database, the two remote states, and what it returns or raises
  abbrev pub Round : Type 0
  Round = Db × store.State × files.State × Result DeletionRaised (Option DocumentDeletionJob)

  -- `await session.commit(); return job`
  abbrev pub commit_and_return :
      Option DocumentDeletionJob → Db × Option DbError → store.State → files.State → Round
  commit_and_return job (db, none) v f = (db, v, f, ok job)
  commit_and_return job (db, some e) v f = (db, v, f, err (db_raised e))

  unfoldable pub after_storage :
      Env
      → Document
      → DocumentDeletionJob
      → Db
      → store.State
      → files.State × Option StorageRaised
      → Round
  after_storage env document job db v (f, none) =
      commit_and_return (some (complete env job))
        (commit db (release_hash document.id (write_deletion job.id (complete env) db))) v f
  after_storage env document job db v (f, some (translated raised)) =
      let failed = fail env DeletionErrorCode.document_storage_cleanup_failed raised in
      commit_and_return (some (failed job)) (commit db (write_deletion job.id failed db)) v f
  after_storage env document job db v (f, some (untranslated raised)) =
      (db, v, f, err (storage_raised raised))

  unfoldable pub delete_object :
      Env → Document → DocumentDeletionJob → Db × Option DbError → store.State → files.State → Round
  unfolding after_storage
  delete_object env document job (db, some e) v f = (db, v, f, err (db_raised e))
  delete_object env document job (db, none) v f =
      after_storage env document job db v (files.delete (resolve_document_storage_key document) f)

  unfoldable pub after_vectors :
      Env
      → Document
      → DocumentDeletionJob
      → Db
      → store.State × VectorDeletionResult
      → files.State
      → Round
  unfolding delete_object
  after_vectors env document job db (v, result) f =
      let failed =
        fail env DeletionErrorCode.document_vector_cleanup_failed (vector_failure_message result) in
      if fully_deleted result
      then delete_object env document (vectors_done env job)
          (commit db (write_deletion job.id (vectors_done env) db)) v f
      else commit_and_return (some (failed job)) (commit db (write_deletion job.id failed db)) v f

  unfoldable pub run_deletion :
      Env → DocumentDeletionJob → Db → Option Document → store.State → files.State → Round
  unfolding after_vectors
  run_deletion env job db none v f =
      let failed =
        fail env DeletionErrorCode.document_vector_cleanup_failed
          (not_found_message env job.document_id) in
      commit_and_return (some (failed job)) (commit db (write_deletion job.id failed db)) v f
  run_deletion env job db (some document) v f =
      after_vectors env document job db (delete_all_tracked_document_vectors store db document v) f

  unfoldable pub run_claimed_deletion :
      Env → DocumentDeletionJob → Db × Option DbError → store.State → files.State → Round
  unfolding run_deletion
  run_claimed_deletion env job (db, some e) v f = (db, v, f, err (db_raised e))
  run_claimed_deletion env job (db, none) v f =
      run_deletion env job db (get job.document_id db.documents) v f

  unfoldable pub run_claim :
      Env → Db → Option DocumentDeletionJob → store.State → files.State → Round
  unfolding run_claimed_deletion
  run_claim env db none v f = (db, v, f, ok none)
  run_claim env db (some job) v f =
      let start = set_status env DocumentDeletionStatus.processing in
      run_claimed_deletion env (start job) (commit db (write_deletion job.id start db)) v f

  unfoldable pub process_next_deletion : Env → (ℕ → Bool) → Db → store.State → files.State → Round
  unfolding run_claim claim_next_deletion
  process_next_deletion env locked db v f = run_claim env db (claim_next_deletion locked db) v f
