-- ===== src/Ingestion/Retry/Outcomes.antt =====
-- What a retry decides, and what it leaves in the job table.
use documents_rag.Base.{
  ℕ, ◌≡◌, refl, sym, ◌∙◌, ap, ◌⊎◌, inl, inr, true, List, [], ◌∷◌, ◌++◌, Option, none, some, ok,
  is_some, arith, if_holds,
}
use documents_rag.Db.{Db, commit}
use documents_rag.Db.Env.{Env}
use documents_rag.Db.Models.{
  IngestionJob, IngestionStatus, ingestion_row, ingestion_key, deletion_row, document_key, Document,
  DocumentDeletionJob,
}
use documents_rag.Db.Rows.{get, update_row, latest_for, latest_active_for}
use documents_rag.Db.Commit.{IsConsistent, violation-none}
use documents_rag.Db.Members.{latest_active_for-insert}
use documents_rag.Ingestion.Status.{create_pending_job, abandon}
use documents_rag.Ingestion.Retry.{
  Reply, created, already_active, is_stale_processing, settle, open_attempt, retry_latest,
  retry_job, retry_undeleted, answer, retry_ingestion,
}

-- The latest job admits a new attempt.
abbrev pub MayRetry : Env → ℕ → Option IngestionJob → Type 0
MayRetry env stale none = Unit
MayRetry env stale (some job) =
    (job.status ≡ IngestionStatus.failed)
    ⊎ ((job.status ≡ IngestionStatus.processing) × (is_stale_processing env stale job ≡ true))

settle-created :
    (new_job job : IngestionJob) (d : ℕ) (later : Db → Db) (before after : Db)
    → (settle new_job d later (commit before after)).1
      ≡ ok (record { outcome = created; job = some job })
    → (job ≡ new_job)
      × ((settle new_job d later (commit before after)).0 ≡ after)
      × IsConsistent after
unfolding settle commit
settle-created new_job job d later before after h = ground (arith, violation-none after)

-- The attempt is opened: the new job is the document's one active job.
abbrev pub Opens : Env → ℕ → IngestionJob → Reply → Type 0
Opens env d job r =
    (job ≡ create_pending_job env 0 d)
    × IsConsistent r.0
    × (latest_active_for d r.0.ingestion_jobs ≡ some job)

abbrev pub Created : IngestionJob → Reply → Type 0
Created job r = r.1 ≡ ok (record { outcome = created; job = some job })

module _ (env : Env) (stale : ℕ) (others later : Db → Db) (db : Db) (d : ℕ)
    (job : IngestionJob) where
  open_attempt-Created :
      (change : List IngestionJob → List IngestionJob)
      → Created job (open_attempt env change others later db d)
      → Opens env d job (open_attempt env change others later db d)
  unfolding open_attempt
  open_attempt-Created change h =
      let seen = others db in
      let new_job = create_pending_job env 0 d in
      let rows = change seen.ingestion_jobs in
      let after : Db = record seen { ingestion_jobs = rows ++ new_job ∷ [] } in
      let (same, final, fine) = settle-created new_job job d later seen after h in
      (
        same,
        rw final fine,
        rw final
            (latest_active_for-insert rows new_job fine.ingestion_unique refl ∙ ap some (sym same)),
      )

  retry_latest-Created :
      (status : IngestionStatus) (latest : IngestionJob)
      → latest.status ≡ status
      → Created job (retry_latest env stale others later db d status latest)
      → MayRetry env stale (some latest)
        × Opens env d job (retry_latest env stale others later db d status latest)
  unfolding retry_latest
  retry_latest-Created IngestionStatus.completed latest e h = absurd (cc)
  retry_latest-Created IngestionStatus.pending latest e h = absurd (cc)
  retry_latest-Created IngestionStatus.failed latest e h =
      (inl e, open_attempt-Created (λ jobs. jobs) h)
  retry_latest-Created IngestionStatus.processing latest e h =
      if_holds (λ r. Created job r → MayRetry env stale (some latest) × Opens env d job r)
        (is_stale_processing env stale latest)
        (open_attempt env (update_row latest.id (abandon env stale)) others later db d)
        (answer db already_active (some latest))
        (λ s made.
          (inr (e, s), open_attempt-Created (update_row latest.id (abandon env stale)) made))
        (λ s made. absurd (cc)) h

  retry_job-Created :
      (latest : Option IngestionJob)
      → Created job (retry_job env stale others later db d latest)
      → MayRetry env stale latest × Opens env d job (retry_job env stale others later db d latest)
  unfolding retry_job
  retry_job-Created none h = (tt, open_attempt-Created (λ jobs. jobs) h)
  retry_job-Created (some latest) h = retry_latest-Created latest.status latest refl h

  retry_undeleted-Created :
      (document : Option Document) (deletion : Option DocumentDeletionJob)
      → Created job (retry_undeleted env stale others later db d document deletion)
      → (is_some document ≡ true)
        × (deletion ≡ none)
        × MayRetry env stale (latest_for d db.ingestion_jobs)
        × Opens env d job (retry_undeleted env stale others later db d document deletion)
  unfolding retry_undeleted
  retry_undeleted-Created none deletion h = absurd (cc)
  retry_undeleted-Created (some document) (some deletion) h = absurd (cc)
  retry_undeleted-Created (some document) none h =
      let (may, opens) = retry_job-Created (latest_for d db.ingestion_jobs) h in
      (refl, refl, may, opens)

  -- A retry that answers CREATED found the document, no deletion job for it at all, and a latest
  -- attempt that is absent, failed or stale while processing; the job that it returns is a fresh
  -- pending one of this document, and in the database it leaves, which is consistent, that job is
  -- the document's active job. This holds whatever other transactions commit in between.
  pub retry_ingestion-Created :
      Created job (retry_ingestion env stale others later db d)
      → (is_some (get d db.documents) ≡ true)
        × (latest_for d db.deletion_jobs ≡ none)
        × MayRetry env stale (latest_for d db.ingestion_jobs)
        × Opens env d job (retry_ingestion env stale others later db d)
  unfolding retry_ingestion
  retry_ingestion-Created h =
      retry_undeleted-Created (get d db.documents) (latest_for d db.deletion_jobs) h
