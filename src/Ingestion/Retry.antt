-- ===== src/Ingestion/Retry.antt =====
-- app/services/ingestion/retry_service.py. `others` is what other transactions commit between the
-- reads of a call and its commit, `later` what they commit between a refused commit and the next
-- read; the row locks and the partial unique index decide the rest.
pub mod Outcomes
pub mod Active
pub mod Progress
use documents_rag.Base.{
  ℕ, ◌+◌, Bool, ltb, ◌++◌, List, [], ◌∷◌, Option, none, some, Result, ok, err, if◌then◌else◌,
  select,
}
use documents_rag.Db.{Db, DbError, integrity_error, value_too_long, commit}
use documents_rag.Db.Env.{Env, seconds}
use documents_rag.Db.Models.{
  IngestionJob, IngestionStatus, ingestion_row, ingestion_key, deletion_row, document_key, Document,
  DocumentDeletionJob,
}
use documents_rag.Db.Rows.{get, update_row, latest_for, latest_active_for}
use documents_rag.Ingestion.Status.{create_pending_job, abandon}

pub data RetryOutcome : Type 0 where
  document_not_found created already_active already_completed deletion_active : RetryOutcome

pub record IngestionRetryResult : Type 0 where
  pub outcome : RetryOutcome
  pub job : Option IngestionJob

abbrev pub Reply : Type 0
Reply = Db × Result DbError IngestionRetryResult

abbrev pub answer : Db → RetryOutcome → Option IngestionJob → Reply
answer db outcome job = (db, ok (record { outcome = outcome; job = job }))

-- `(now - updated_at).total_seconds() > stale_after_seconds`
abbrev pub is_stale_processing : Env → ℕ → IngestionJob → Bool
is_stale_processing env stale_after_seconds job =
    ltb (job.updated_at + seconds stale_after_seconds) env.now

-- `except IntegrityError`: the transaction is rolled back and the active job read again, in a new
-- transaction.
unfoldable pub settle : IngestionJob → ℕ → (Db → Db) → Db × Option DbError → Reply
settle new_job document_id later (db, none) = answer db RetryOutcome.created (some new_job)
settle new_job document_id later (db, some (integrity_error c)) =
    answer (later db) RetryOutcome.already_active
      (latest_active_for document_id (later db).ingestion_jobs)
settle new_job document_id later (db, some value_too_long) = (db, err value_too_long)

-- The commit of a new attempt, with what else the transaction changes in the job rows.
unfoldable pub open_attempt :
    Env → (List IngestionJob → List IngestionJob) → (Db → Db) → (Db → Db) → Db → ℕ → Reply
unfolding settle
open_attempt env change others later db document_id =
    let seen = others db in
    let new_job = create_pending_job env 0 document_id in
    settle new_job document_id later
      (commit seen (record seen { ingestion_jobs = change seen.ingestion_jobs ++ new_job ∷ [] }))

-- The decision on the latest job.
unfoldable pub retry_latest :
    Env → ℕ → (Db → Db) → (Db → Db) → Db → ℕ → IngestionStatus → IngestionJob → Reply
unfolding open_attempt
retry_latest env stale others later db document_id IngestionStatus.completed latest =
    answer db RetryOutcome.already_completed (some latest)
retry_latest env stale others later db document_id IngestionStatus.pending latest =
    answer db RetryOutcome.already_active (some latest)
retry_latest env stale others later db document_id IngestionStatus.processing latest =
    if is_stale_processing env stale latest
    then open_attempt env (update_row latest.id (abandon env stale)) others later db document_id
    else answer db RetryOutcome.already_active (some latest)
retry_latest env stale others later db document_id IngestionStatus.failed latest =
    open_attempt env (λ jobs. jobs) others later db document_id

unfoldable pub retry_job : Env → ℕ → (Db → Db) → (Db → Db) → Db → ℕ → Option IngestionJob → Reply
unfolding retry_latest
retry_job env stale others later db document_id none =
    open_attempt env (λ jobs. jobs) others later db document_id
retry_job env stale others later db document_id (some latest) =
    retry_latest env stale others later db document_id latest.status latest

unfoldable pub retry_undeleted :
    Env → ℕ → (Db → Db) → (Db → Db) → Db → ℕ → Option Document → Option DocumentDeletionJob → Reply
unfolding retry_job
retry_undeleted env stale others later db document_id none deletion =
    answer db RetryOutcome.document_not_found none
retry_undeleted env stale others later db document_id (some document) (some deletion) =
    answer db RetryOutcome.deletion_active none
retry_undeleted env stale others later db document_id (some document) none =
    retry_job env stale others later db document_id (latest_for document_id db.ingestion_jobs)

unfoldable pub retry_ingestion : Env → ℕ → (Db → Db) → (Db → Db) → Db → ℕ → Reply
unfolding retry_undeleted
retry_ingestion env stale_after_seconds others later db document_id =
    retry_undeleted env stale_after_seconds others later db document_id
      (get document_id db.documents) (latest_for document_id db.deletion_jobs)
