-- ===== src/Indexing/Activation.antt =====
-- app/services/indexing/reindex_activation.py. The row locks are not modelled: one call sees one
-- state of the tables.
pub mod Tracking
pub mod Outcomes
use documents_rag.Base.{
  ℕ, Bool, true, false, not, List, [], ◌∷◌, ◌++◌, Option, none, some, Result, ok, err, Text,
  text_eq, if◌then◌else◌, is_some,
}
use documents_rag.Db.{Db, DbError, commit, same_text}
use documents_rag.Db.Env.{Env}
use documents_rag.Db.Models.{
  Document, DocumentDeletionJob, IndexCollection, ReindexJob, ReindexJobStatus, VectorCleanupJob,
  VectorCleanupStatus, deletion_row, document_key, reindex_key,
}
use documents_rag.Db.Rows.{get, update_row, latest_for}
use documents_rag.Indexing.Registry.{get_collection}

pub data ReindexActivationOutcome : Type 0 where
  job_not_found already_activated not_ready document_missing blocked_by_deletion source_changed
        activated :
      ReindexActivationOutcome

pub record ReindexActivationResult : Type 0 where
  pub outcome : ReindexActivationOutcome
  pub job : Option ReindexJob
  pub document : Option Document

abbrev pub Reply : Type 0
Reply = Db × Result DbError ReindexActivationResult

abbrev pub answer : Db → ReindexActivationOutcome → Option ReindexJob → Option Document → Reply
answer db outcome job document =
    (db, ok (record { outcome = outcome; job = job; document = document }))

abbrev pub serve : Env → IndexCollection → Document → Document
serve env target document = record document {
  collection_name = some target.collection_name;
  embedding_provider = some target.embedding_provider;
  embedding_model = some target.embedding_model;
  embedding_dimension = some target.embedding_dimension;
  embedding_version = some target.embedding_version;
  chunking_version = some target.chunking_version;
  indexed_at = some env.now;
}

abbrev pub stamp : Env → ReindexJob → ReindexJob
stamp env job = record job { activated_at = some env.now; updated_at = env.db_now }

abbrev pub source_cleanup : Env → ReindexJob → VectorCleanupJob
source_cleanup env job = record {
  id = env.uuid 0;
  document_id = job.document_id;
  collection_name = job.source_collection_name;
  status = VectorCleanupStatus.pending;
  attempts = 0;
  last_error = none;
  created_at = env.db_now;
  completed_at = none;
}

abbrev pub is_empty : Text → Bool
is_empty [] = true
is_empty (c ∷ cs) = false

-- no cleanup for a collection that stays in use
unfoldable pub cleanup_of : Env → ReindexJob → List VectorCleanupJob
cleanup_of env job =
    if is_empty job.source_collection_name
    then []
    else if text_eq job.source_collection_name job.target_collection_name
    then []
    else source_cleanup env job ∷ []

-- what the transaction leaves, if it commits
unfoldable pub switched : Env → Db → ReindexJob → Document → IndexCollection → Db
unfolding cleanup_of
switched env db job document target = record db {
  documents = update_row document.id (serve env target) db.documents;
  reindex_jobs = update_row job.id (stamp env) db.reindex_jobs;
  cleanup_jobs = db.cleanup_jobs ++ cleanup_of env job;
}

-- `except Exception`: rolled back and raised again
unfoldable pub settle_activation : ReindexJob → Document → Db × Option DbError → Reply
settle_activation job document (db, none) =
    answer db ReindexActivationOutcome.activated (some job) (some document)
settle_activation job document (db, some e) = (db, err e)

unfoldable pub activate_into : Env → Db → ReindexJob → Document → Option IndexCollection → Reply
unfolding settle_activation
activate_into env db job document none =
    answer db ReindexActivationOutcome.not_ready (some job) (some document)
activate_into env db job document (some target) =
    settle_activation (stamp env job) (serve env target document)
      (commit db (switched env db job document target))

-- any deletion job blocks, whatever its status
unfoldable pub activate_document :
    Env → Db → ReindexJob → Document → Option DocumentDeletionJob → Reply
unfolding activate_into
activate_document env db job document (some deletion) =
    answer db ReindexActivationOutcome.blocked_by_deletion (some job) (some document)
activate_document env db job document none =
    if same_text document.collection_name (some job.source_collection_name)
    then activate_into env db job document
        (get_collection job.target_collection_name db.collections)
    else answer db ReindexActivationOutcome.source_changed (some job) (some document)

unfoldable pub activate_built : Env → Db → ReindexJob → Option Document → Reply
unfolding activate_document
activate_built env db job none = answer db ReindexActivationOutcome.document_missing (some job) none
activate_built env db job (some document) =
    activate_document env db job document (latest_for job.document_id db.deletion_jobs)

abbrev pub is_completed : ReindexJobStatus → Bool
is_completed ReindexJobStatus.completed = true
is_completed _ = false

unfoldable pub activate_job : Env → Db → Option ReindexJob → Reply
unfolding activate_built
activate_job env db none = answer db ReindexActivationOutcome.job_not_found none none
activate_job env db (some job) =
    if is_some job.activated_at
    then answer db ReindexActivationOutcome.already_activated (some job) none
    else if is_completed job.status
    then activate_built env db job (get job.document_id db.documents)
    else answer db ReindexActivationOutcome.not_ready (some job) none

unfoldable pub activate_reindexed_document : Env → Db → ℕ → Reply
unfolding activate_job
activate_reindexed_document env db reindex_job_id =
    activate_job env db (get reindex_job_id db.reindex_jobs)
