-- ===== src/Indexing/Cleanup.antt =====
-- app/services/indexing/cleanup_job_service.py
pub mod Guard
use documents_rag.Base.{
  ℕ, ◌+◌, ◌-◌, Bool, true, false, not, ltb, leb, ◌==◌, ◌||◌, ◌&&◌, List, [], ◌∷◌, ◌++◌, Option,
  none, some, Result, ok, err, Text, codes, text_eq, length, take, select, first, if◌then◌else◌,
  is_some,
}
use documents_rag.Db.{Db, DbError, commit, same_text}
use documents_rag.Db.Env.{Env}
use documents_rag.Db.Models.{
  Document, VectorCleanupJob, VectorCleanupStatus, document_key, cleanup_key,
}
use documents_rag.Db.Rows.{get, order_by, update_row}
use documents_rag.External.{VectorStore}
use documents_rag.Indexing.Vectors.{is_unresolved}

unfoldable pub active_collection_guard_message : Text
active_collection_guard_message =
    codes "Refusing cleanup: this collection is the document's current active serving collection."

abbrev pub max_error_message_length : ℕ
max_error_message_length = 2000

-- 8230 is the ellipsis
unfoldable pub bounded_error_message : Text → Text
bounded_error_message raw =
    if leb (length raw) max_error_message_length
    then raw
    else take (max_error_message_length - 1) raw ++ 8230 ∷ []

abbrev pub new_cleanup_job : Env → ℕ → Text → Option Text → VectorCleanupJob
new_cleanup_job env document_id collection_name error = record {
  id = env.uuid 0;
  document_id = document_id;
  collection_name = collection_name;
  status = if is_some error then VectorCleanupStatus.failed else VectorCleanupStatus.pending;
  attempts = if is_some error then 1 else 0;
  last_error = error;
  created_at = env.db_now;
  completed_at = none;
}

abbrev pub saved_job : VectorCleanupJob → Db × Option DbError → Db × Result DbError VectorCleanupJob
saved_job job (db, none) = (db, ok job)
saved_job job (db, some e) = (db, err e)

unfoldable pub create_cleanup_job :
    Env → ℕ → Text → Option Text → Db → Db × Result DbError VectorCleanupJob
create_cleanup_job env document_id collection_name error db =
    let job = new_cleanup_job env document_id collection_name error in
    saved_job job (commit db (record db { cleanup_jobs = db.cleanup_jobs ++ job ∷ [] }))

-- the attributes that are assigned to a loaded `job`, on the row that it is written to
abbrev pub fail_cleanup : Text → VectorCleanupJob → VectorCleanupJob → VectorCleanupJob
fail_cleanup message job row = record row {
  status = VectorCleanupStatus.failed;
  attempts = job.attempts + 1;
  last_error = some message;
}

abbrev pub complete_cleanup : Env → VectorCleanupJob → VectorCleanupJob → VectorCleanupJob
complete_cleanup env job row = record row {
  status = VectorCleanupStatus.completed;
  attempts = job.attempts + 1;
  last_error = none;
  completed_at = some env.now;
}

abbrev pub write_cleanup : ℕ → (VectorCleanupJob → VectorCleanupJob) → Db → Db
write_cleanup i f db = record db { cleanup_jobs = update_row i f db.cleanup_jobs }

-- `document is not None and document.collection_name == job.collection_name`
abbrev pub is_serving : Option Document → Text → Bool
is_serving none name = false
is_serving (some document) name = same_text document.collection_name (some name)

module _ (store : VectorStore) where
  abbrev pub Retried : Type 0
  Retried = Db × store.State × Result DbError Bool

  -- `_commit_or_rollback(session, job); return succeeded`
  abbrev pub commit_retry : Bool → Db × Option DbError → store.State → Retried
  commit_retry succeeded (db, none) s = (db, s, ok succeeded)
  commit_retry succeeded (db, some e) s = (db, s, err e)

  -- `db` is what the commit sees
  unfoldable pub after_delete : Env → VectorCleanupJob → Db → store.State × Option Text → Retried
  unfolding bounded_error_message
  after_delete env job db (s, none) =
      commit_retry true (commit db (write_cleanup job.id (complete_cleanup env job) db)) s
  after_delete env job db (s, some raised) =
      commit_retry false
        (commit db (write_cleanup job.id (fail_cleanup (bounded_error_message raised) job) db)) s

  -- No lock is held between the read of the guard and the commit: `between` is what others commit.
  unfoldable pub retry_cleanup_job : Env → (Db → Db) → Db → VectorCleanupJob → store.State → Retried
  unfolding after_delete active_collection_guard_message
  retry_cleanup_job env between db job s =
      let seen = between db in
      if is_serving (get job.document_id db.documents) job.collection_name
      then commit_retry false
          (commit seen
            (write_cleanup job.id (fail_cleanup active_collection_guard_message job) seen))
          s
      else after_delete env job seen
          (store.delete_by_document_id job.collection_name job.document_id s)

-- `ORDER BY created_at, id LIMIT 1`, `SKIP LOCKED`
unfoldable pub claim_next_pending_cleanup_job : (ℕ → Bool) → Db → Option VectorCleanupJob
claim_next_pending_cleanup_job locked db = first (
    order_by
      (λ (a b : VectorCleanupJob).
        ltb a.created_at b.created_at || ((a.created_at == b.created_at) && leb a.id b.id))
      (select (λ (j : VectorCleanupJob). is_unresolved j.status && not (locked j.id))
        db.cleanup_jobs))

pub data VectorCleanupWorkerOutcome : Type 0 where
  no_job completed failed : VectorCleanupWorkerOutcome

pub record VectorCleanupWorkerResult : Type 0 where
  pub outcome : VectorCleanupWorkerOutcome
  pub job_id : Option ℕ
  pub document_id : Option ℕ
  pub collection_name : Option Text

abbrev pub result_for : VectorCleanupWorkerOutcome → VectorCleanupJob → VectorCleanupWorkerResult
result_for outcome job = record {
  outcome = outcome;
  job_id = some job.id;
  document_id = some job.document_id;
  collection_name = some job.collection_name;
}

abbrev pub no_job_result : VectorCleanupWorkerResult
no_job_result = record {
  outcome = VectorCleanupWorkerOutcome.no_job;
  job_id = none;
  document_id = none;
  collection_name = none;
}

abbrev pub outcome_of : Bool → VectorCleanupWorkerOutcome
outcome_of true = VectorCleanupWorkerOutcome.completed
outcome_of false = VectorCleanupWorkerOutcome.failed

module _ (store : VectorStore) where
  abbrev pub Round : Type 0
  Round = Db × store.State × Result DbError VectorCleanupWorkerResult

  abbrev pub report : VectorCleanupJob → Retried store → Round
  report job (db, s, err e) = (db, s, err e)
  report job (db, s, ok succeeded) = (db, s, ok (result_for (outcome_of succeeded) job))

  unfoldable pub retry_fresh :
      Env → (Db → Db) → Db → VectorCleanupJob → Option VectorCleanupJob → store.State → Option Round
  unfolding retry_cleanup_job
  retry_fresh env between db job none s = none
  retry_fresh env between db job (some fresh_job) s =
      some (report job (retry_cleanup_job store env between db fresh_job s))

  unfoldable pub retry_claimed :
      Env → (Db → Db) → (Db → Db) → Db → Option VectorCleanupJob → store.State → Option Round
  unfolding retry_fresh
  retry_claimed env others between db none s = some (db, s, ok no_job_result)
  retry_claimed env others between db (some job) s =
      retry_fresh env between (others db) job (get job.id (others db).cleanup_jobs) s

  -- The row's lock is given up before the retry, so `others` may commit in between; the row is read again, and
  -- the worker asserts that it is there (`none` stands for its AssertionError).
  unfoldable pub process_next_vector_cleanup_job :
      Env → (ℕ → Bool) → (Db → Db) → (Db → Db) → Db → store.State → Option Round
  unfolding retry_claimed claim_next_pending_cleanup_job
  process_next_vector_cleanup_job env locked others between db s =
      retry_claimed env others between db (claim_next_pending_cleanup_job locked db) s
