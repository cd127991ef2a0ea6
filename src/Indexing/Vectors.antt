-- ===== src/Indexing/Vectors.antt =====
-- app/services/indexing/vector_deletion_service.py, with the two queries that it reads.
pub mod Outcomes
use documents_rag.Base.{
  ℕ, Bool, true, false, not, ◌&&◌, ◌==◌, List, [], ◌∷◌, ◌++◌, Option, none, some, Text, text_eq,
  any, all, select, map, if◌then◌else◌,
}
use documents_rag.Db.{Db}
use documents_rag.Db.Models.{
  Document, VectorCleanupJob, VectorCleanupStatus, ReindexJob, ReindexJobStatus,
}
use documents_rag.External.{VectorStore}

abbrev pub is_unresolved : VectorCleanupStatus → Bool
is_unresolved VectorCleanupStatus.completed = false
is_unresolved _ = true

-- `get_pending_cleanup_jobs(session, document_id)` of cleanup_job_service.py
unfoldable pub get_pending_cleanup_jobs : Db → Option ℕ → List VectorCleanupJob
get_pending_cleanup_jobs db none =
    select (λ (j : VectorCleanupJob). is_unresolved j.status) db.cleanup_jobs
get_pending_cleanup_jobs db (some document_id) =
    select (λ (j : VectorCleanupJob). j.document_id == document_id)
      (select (λ (j : VectorCleanupJob). is_unresolved j.status) db.cleanup_jobs)

abbrev pub is_built : ReindexJobStatus → Bool
is_built ReindexJobStatus.completed = true
is_built _ = false

-- `get_completed_reindex_target_collections` of reindex_scheduling_service.py
unfoldable pub get_completed_reindex_target_collections : Db → ℕ → List Text
get_completed_reindex_target_collections db document_id =
    map (λ (j : ReindexJob). j.target_collection_name)
      (select (λ (j : ReindexJob). (j.document_id == document_id) && is_built j.status)
        db.reindex_jobs)

-- `name in names`
abbrev pub in_list : Text → List Text → Bool
in_list name names = any (λ n. text_eq n name) names

-- `if name not in names: names.append(name)`
unfoldable pub append_new : Text → List Text → List Text
append_new name names = if in_list name names then names else names ++ name ∷ []

unfoldable pub append_all_new : List Text → List Text → List Text
unfolding append_new
append_all_new [] names = names
append_all_new (name ∷ more) names = append_all_new more (append_new name names)

abbrev pub current_collection : Option Text → List Text
current_collection none = []
current_collection (some name) = name ∷ []

unfoldable pub collections_to_attempt : Db → Document → List Text
unfolding append_all_new get_pending_cleanup_jobs get_completed_reindex_target_collections
collections_to_attempt db document =
    append_all_new (get_completed_reindex_target_collections db document.id) (
      append_all_new
        (map (λ (j : VectorCleanupJob). j.collection_name)
          (get_pending_cleanup_jobs db (some document.id)))
        (current_collection document.collection_name))

pub record CollectionVectorDeletionResult : Type 0 where
  pub collection_name : Text
  pub succeeded : Bool
  pub error : Option Text

pub record VectorDeletionResult : Type 0 where
  pub document_id : ℕ
  pub attempted_collections : List Text
  pub collection_results : List CollectionVectorDeletionResult

abbrev pub fully_deleted : VectorDeletionResult → Bool
fully_deleted r = all (λ (c : CollectionVectorDeletionResult). c.succeeded) r.collection_results

abbrev pub outcome_of : Text → Option Text → CollectionVectorDeletionResult
outcome_of name none = record { collection_name = name; succeeded = true; error = none }
outcome_of name (some e) = record { collection_name = name; succeeded = false; error = some e }

module _ (store : VectorStore) where
  open store use {State, delete_by_document_id}

  -- A failure in one collection does not stop the attempts at the others.
  unfoldable pub attempt_all : ℕ → List Text → State → State × List CollectionVectorDeletionResult
  attempt_all document_id [] s = (s, [])
  attempt_all document_id (name ∷ names) s =
      let (s1, raised) = delete_by_document_id name document_id s in
      let (s2, results) = attempt_all document_id names s1 in (s2, outcome_of name raised ∷ results)

  unfoldable pub delete_all_tracked_document_vectors :
      Db → Document → State → State × VectorDeletionResult
  unfolding attempt_all
  delete_all_tracked_document_vectors db document s =
      let names = collections_to_attempt db document in
      let (s', results) = attempt_all document.id names s in
      (
        s',
        record {
          document_id = document.id;
          attempted_collections = names;
          collection_results = results;
        },
      )
