-- ===== src/Tests/Indexing.antt =====
-- Vector deletion, scheduling, activation and cleanup of one document.
use documents_rag.Base.{
  ℕ, ◌≡◌, ◌≢◌, refl, List, [], ◌∷◌, none, some, true, false, ok, Text, codes, text_eq,
}
use documents_rag.Db.{Db}
use documents_rag.Db.Env.{Env}
use documents_rag.Db.Models.{
  Document, ReindexJob, ReindexJobStatus, VectorCleanupJob, VectorCleanupStatus, IndexCollection,
  IndexCollectionStatus, document_key, reindex_key, reindex_row, deletion_row,
}
use documents_rag.Db.Rows.{get}
use documents_rag.Documents.Deletion.{get_active_reindex_job}
use documents_rag.Indexing.Config.{collection_name}
use documents_rag.Indexing.Registry.{get_collection, ensure_active_collection}
use documents_rag.Indexing.Vectors.{
  fully_deleted, in_list, collections_to_attempt, delete_all_tracked_document_vectors,
}
use documents_rag.Indexing.Vectors.Outcomes.{
  is_tracked, in_list-collections_to_attempt, delete_all_tracked_document_vectors-removes,
}
use documents_rag.Indexing.Scheduling.{Target, new_reindex_job, schedule_reindex}
use documents_rag.Indexing.Scheduling.Outcomes.{Created, Free, schedule_reindex-Created}
use documents_rag.Indexing.Inspection.{inspect_found}
use documents_rag.Indexing.Inspection.Agreement.{can_schedule_complete}
use documents_rag.Indexing.Activation.{
  ReindexActivationOutcome, answer, serve, stamp, activate_reindexed_document, Reply, switched,
}
use documents_rag.Indexing.Activation.Outcomes.{
  IsReady, Activated, activate_reindexed_document-Activated,
}
use documents_rag.Indexing.Cleanup.{
  result_for, process_next_vector_cleanup_job, fail_cleanup, active_collection_guard_message, Round,
  VectorCleanupWorkerOutcome,
}
use documents_rag.Indexing.Cleanup.Guard.{process_next_vector_cleanup_job-keeps_served}
use documents_rag.Tests.Data.{env, paper, failed_job, with_jobs, schema}
use documents_rag.Tests.Stores.{vectors}

abbrev pub served : Document
served = record paper { collection_name = some (codes "c1") }

abbrev pub build : ReindexJob
build = record {
  id = 40;
  document_id = 1;
  source_collection_name = codes "c1";
  target_collection_name = codes "c2";
  target_chunk_size = 1000;
  target_chunk_overlap = 200;
  status = ReindexJobStatus.completed;
  error_message = none;
  created_at = 500;
  updated_at = 600;
  completed_at = some 600;
  activated_at = none;
}

abbrev pub old_cleanup : VectorCleanupJob
old_cleanup = record {
  id = 50;
  document_id = 1;
  collection_name = codes "c0";
  status = VectorCleanupStatus.failed;
  attempts = 2;
  last_error = some (codes "timeout");
  created_at = 300;
  completed_at = none;
}

abbrev pub second_collection : IndexCollection
second_collection = record {
  collection_name = codes "c2";
  embedding_provider = codes "p";
  embedding_model = codes "m";
  embedding_dimension = 8;
  embedding_version = codes "2";
  chunking_version = codes "1";
  status = IndexCollectionStatus.active;
  created_at = 400;
}

abbrev pub built_db : Db
built_db = record (with_jobs (failed_job ∷ [])) {
  documents = served ∷ [];
  reindex_jobs = build ∷ [];
  cleanup_jobs = old_cleanup ∷ [];
  collections = second_collection ∷ [];
}

abbrev held : List (Text × ℕ)
held = (codes "c0", 1) ∷ (codes "c1", 1) ∷ (codes "c2", 1) ∷ (codes "c0", 2) ∷ []

in_list-collections_to_attempt_example :
    in_list (codes "c0") (collections_to_attempt built_db served)
    ≡ is_tracked built_db served (codes "c0")
in_list-collections_to_attempt_example = in_list-collections_to_attempt built_db served (codes "c0")

all_deleted :
    fully_deleted (delete_all_tracked_document_vectors vectors built_db served held).1 ≡ true
unfolding schema delete_all_tracked_document_vectors collections_to_attempt
all_deleted = refl

old_tracked : is_tracked built_db served (codes "c0") ≡ true
unfolding schema
old_tracked = refl

delete_all_tracked_document_vectors-removes_example :
    vectors.holds
      (delete_all_tracked_document_vectors vectors built_db served held).0
      (codes "c0")
      1
    ≡ false
delete_all_tracked_document_vectors-removes_example =
    delete_all_tracked_document_vectors-removes vectors built_db served held (codes "c0")
      all_deleted old_tracked

abbrev activation : Reply
activation = activate_reindexed_document env built_db 40

activates : Activated env built_db (stamp env build) (serve env second_collection served) activation
unfolding schema activate_reindexed_document get_collection switched
activates = refl

activate_reindexed_document-Activated_example :
    (job : ReindexJob) × (get 40 built_db.reindex_jobs ≡ some job)
    × (document : Document) × (target : IndexCollection) × IsReady built_db job document target
    × (get document.id activation.0.documents ≡ some (serve env target document))
    × ((c : Text)
        → c ≢ []
        → is_tracked built_db document c ≡ true
        → is_tracked activation.0 (serve env target document) c ≡ true)
    × ((env' : Env)
        → activate_reindexed_document env' activation.0 40
          ≡ answer activation.0 ReindexActivationOutcome.already_activated
              (some (stamp env job))
              none)
activate_reindexed_document-Activated_example =
    activate_reindexed_document-Activated env built_db (stamp env build)
      (serve env second_collection served) 40 activates

abbrev target : Target
target = record {
  config = record {
    collection_prefix = codes "docs";
    provider = codes "p";
    model = codes "m";
    dimension = 8;
    embedding_version = codes "3";
    chunking_version = codes "1";
  };
  chunk_size = 1000;
  chunk_overlap = 200;
}

scheduled :
    Created vectors env
      (λ db. db)
      (λ db. db)
      built_db
      held
      served
      target
      (new_reindex_job env served (codes "c1") target)
      (schedule_reindex vectors env (λ db. db) (λ db. db) built_db held served target)
unfolding schema schedule_reindex get_active_reindex_job ensure_active_collection collection_name
scheduled = refl

schedule_reindex-Created_example :
    (source : Text) × (served.collection_name ≡ some source)
    × (text_eq source (collection_name target.config) ≡ false)
    × (get_active_reindex_job built_db 1 ≡ none)
    × Free vectors env
        (λ db. db)
        (λ db. db)
        built_db
        held
        served
        target
        (new_reindex_job env served (codes "c1") target)
        source
        (schedule_reindex vectors env (λ db. db) (λ db. db) built_db held served target)
schedule_reindex-Created_example =
    schedule_reindex-Created vectors env (λ db. db) (λ db. db) built_db held served target
      (new_reindex_job env served (codes "c1") target) scheduled

can_schedule_complete_example :
    (inspect_found built_db target.config target.chunk_size target.chunk_overlap
      served).can_schedule
    ≡ true
can_schedule_complete_example =
    can_schedule_complete vectors env (λ db. db) (λ db. db) built_db held served target
      (new_reindex_job env served (codes "c1") target) scheduled

abbrev serving_job : VectorCleanupJob
serving_job = record old_cleanup { collection_name = codes "c1" }

abbrev serving_cleanup : Db
serving_cleanup = record built_db { cleanup_jobs = serving_job ∷ [] }

-- the job is failed by the guard, and the vectors stay
abbrev guarded_round : Round vectors
guarded_round = (
  record built_db {
    cleanup_jobs = fail_cleanup active_collection_guard_message serving_job serving_job ∷ [];
  },
  held,
  ok (result_for VectorCleanupWorkerOutcome.failed serving_job),
)

guarded :
    process_next_vector_cleanup_job vectors env
      (λ i. false)
      (λ db. db)
      (λ db. db)
      serving_cleanup
      held
    ≡ some guarded_round
unfolding schema process_next_vector_cleanup_job
guarded = refl

served_there : get 1 serving_cleanup.documents ≡ some served
unfolding schema
served_there = refl

process_next_vector_cleanup_job-keeps_served_example :
    vectors.holds guarded_round.1 (codes "c1") 1 ≡ vectors.holds held (codes "c1") 1
process_next_vector_cleanup_job-keeps_served_example =
    process_next_vector_cleanup_job-keeps_served vectors env (λ i. false) (λ db. db) (λ db. db)
      serving_cleanup held guarded_round served (codes "c1") served_there refl guarded
