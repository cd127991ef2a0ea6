-- ===== src/Indexing/Scheduling.antt =====
-- app/services/indexing/reindex_scheduling_service.py. `others` is what other transactions commit
-- between the reads of a call and its last commit.
pub mod Outcomes
use documents_rag.Base.{
  ℕ, Bool, true, false, List, [], ◌∷◌, ◌++◌, Option, none, some, Result, ok, err, Text, text_eq,
  if◌then◌else◌,
}
use documents_rag.Db.{Db, Constraint, DbError, integrity_error, commit}
use documents_rag.Db.Env.{Env}
use documents_rag.Db.Models.{
  Document, DocumentDeletionJob, DocumentDeletionStatus, IngestionJob, ReindexJob, ReindexJobStatus,
  ingestion_active as ingestion_running, ingestion_row, deletion_row, reindex_row,
}
use documents_rag.Db.Rows.{latest_for, latest_active_for}
use documents_rag.External.{VectorStore}
use documents_rag.Documents.Deletion.{get_active_reindex_job}
use documents_rag.Indexing.Config.{EmbeddingIndexConfig, collection_name}
use documents_rag.Indexing.Registry.{RegistryError, ensure_active_collection}

pub data ReindexSchedulingOutcome : Type 0 where
  ineligible_never_indexed already_current already_active ingestion_active :
      ReindexSchedulingOutcome
  deletion_active deletion_incomplete document_deleted created : ReindexSchedulingOutcome

pub record ReindexSchedulingResult : Type 0 where
  pub outcome : ReindexSchedulingOutcome
  pub document : Document
  pub job : Option ReindexJob
  pub target_config : EmbeddingIndexConfig

pub data SchedulingError : Type 0 where
  registry_error : RegistryError → SchedulingError
  db_error : DbError → SchedulingError
  missing_active_reindex_job_after_race : ℕ → SchedulingError

-- what the caller asks for
pub record Target : Type 0 where
  pub config : EmbeddingIndexConfig
  pub chunk_size : ℕ
  pub chunk_overlap : ℕ

abbrev pub is_active_reindex_job_violation : DbError → Bool
is_active_reindex_job_violation (integrity_error Constraint.one_active_reindex) = true
is_active_reindex_job_violation _ = false

-- `_latest_ingestion_job`, when it is in flight
unfoldable pub running_ingestion : Db → ℕ → Bool
running_ingestion db document_id = elim (latest_for document_id db.ingestion_jobs) [
  | none ↦ false
  | some latest ↦ ingestion_running latest.status
]

abbrev pub blocked_by : DocumentDeletionStatus → ReindexSchedulingOutcome
blocked_by DocumentDeletionStatus.pending = ReindexSchedulingOutcome.deletion_active
blocked_by DocumentDeletionStatus.processing = ReindexSchedulingOutcome.deletion_active
blocked_by DocumentDeletionStatus.partially_failed = ReindexSchedulingOutcome.deletion_incomplete
blocked_by DocumentDeletionStatus.completed = ReindexSchedulingOutcome.document_deleted

abbrev pub new_reindex_job : Env → Document → Text → Target → ReindexJob
new_reindex_job env document source target = record {
  id = env.uuid 0;
  document_id = document.id;
  source_collection_name = source;
  target_collection_name = collection_name target.config;
  target_chunk_size = target.chunk_size;
  target_chunk_overlap = target.chunk_overlap;
  status = ReindexJobStatus.pending;
  error_message = none;
  created_at = env.db_now;
  updated_at = env.db_now;
  completed_at = none;
  activated_at = none;
}

module _ (store : VectorStore) where
  abbrev pub Reply : Type 0
  Reply = Db × store.State × Result SchedulingError ReindexSchedulingResult

  abbrev pub answer :
      Db → store.State → Document → Target → ReindexSchedulingOutcome → Option ReindexJob → Reply
  answer db s document target outcome job = (
    db,
    s,
    ok (record {
      outcome = outcome;
      document = document;
      job = job;
      target_config = target.config;
    }),
  )

  -- the job that won the race, read again
  abbrev pub answer_winner : Db → store.State → Document → Target → Option ReindexJob → Reply
  answer_winner db s document target none =
      (db, s, err (SchedulingError.missing_active_reindex_job_after_race document.id))
  answer_winner db s document target (some winner) =
      answer db s document target ReindexSchedulingOutcome.already_active (some winner)

  -- after a refused commit the winner is read in a new transaction; `later` is what others commit
  -- before it
  unfoldable pub settle_schedule :
      Document → Target → ReindexJob → (Db → Db) → Db × Option DbError → store.State → Reply
  settle_schedule document target job later (db, none) s =
      answer db s document target ReindexSchedulingOutcome.created (some job)
  settle_schedule document target job later (db, some e) s =
      if is_active_reindex_job_violation e
      then answer_winner (later db) s document target
          (get_active_reindex_job (later db) document.id)
      else (db, s, err (SchedulingError.db_error e))

  unfoldable pub insert_job :
      Env
      → (Db → Db)
      → (Db → Db)
      → Document
      → Text
      → Target
      → Db × store.State × Option RegistryError
      → Reply
  unfolding settle_schedule
  insert_job env others later document source target (db, s, some e) =
      (db, s, err (SchedulingError.registry_error e))
  insert_job env others later document source target (db, s, none) =
      let seen = others db in
      let job = new_reindex_job env document source target in
      settle_schedule document target job later
        (commit seen (record seen { reindex_jobs = seen.reindex_jobs ++ job ∷ [] })) s

  unfoldable pub schedule_undeleted :
      Env
      → (Db → Db)
      → (Db → Db)
      → Db
      → store.State
      → Document
      → Text
      → Target
      → Option DocumentDeletionJob
      → Reply
  unfolding insert_job
  schedule_undeleted env others later db s document source target (some deletion) =
      answer db s document target (blocked_by deletion.status) none
  schedule_undeleted env others later db s document source target none =
      insert_job env others later document source target
        (ensure_active_collection store env target.config db s)

  unfoldable pub schedule_idle :
      Env
      → (Db → Db)
      → (Db → Db)
      → Db
      → store.State
      → Document
      → Text
      → Target
      → Option ReindexJob
      → Reply
  unfolding schedule_undeleted running_ingestion
  schedule_idle env others later db s document source target (some active) =
      answer db s document target ReindexSchedulingOutcome.already_active (some active)
  schedule_idle env others later db s document source target none =
      if running_ingestion db document.id
      then answer db s document target ReindexSchedulingOutcome.ingestion_active none
      else schedule_undeleted env others later db s document source target
          (latest_for document.id db.deletion_jobs)

  unfoldable pub schedule_from :
      Env → (Db → Db) → (Db → Db) → Db → store.State → Document → Target → Option Text → Reply
  unfolding schedule_idle
  schedule_from env others later db s document target none =
      answer db s document target ReindexSchedulingOutcome.ineligible_never_indexed none
  schedule_from env others later db s document target (some source) =
      if text_eq source (collection_name target.config)
      then answer db s document target ReindexSchedulingOutcome.already_current none
      else schedule_idle env others later db s document source target
          (get_active_reindex_job db document.id)

  unfoldable pub schedule_reindex :
      Env → (Db → Db) → (Db → Db) → Db → store.State → Document → Target → Reply
  unfolding schedule_from
  schedule_reindex env others later db s document target =
      schedule_from env others later db s document target document.collection_name
