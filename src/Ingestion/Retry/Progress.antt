-- ===== src/Ingestion/Retry/Progress.antt =====
-- Undisturbed retries of app/services/ingestion/retry_service.py.
use documents_rag.Base.{
  ℕ, ◌≡◌, refl, ◌∙◌, ap, true, false, List, [], ◌∷◌, ◌++◌, Option, none, some, is_some, arith,
  if_holds, all, Memᴰ,
}
use documents_rag.Db.{Db, fits}
use documents_rag.Db.Env.{Env}
use documents_rag.Db.Models.{
  IngestionJob, IngestionStatus, ingestion_row, ingestion_key, deletion_row, document_key,
  ingestion_active, Document,
}
use documents_rag.Db.Rows.{get, update_row, latest_for, has_active, has_clash}
use documents_rag.Db.Commit.{IsConsistent, commit_ok, ingestion-IsConsistent}
use documents_rag.Db.Members.{mem-latest_for, has_active-retire}
use documents_rag.Db.Active.{has_clash-insert, has_clash-update}
use documents_rag.Ingestion.Messages.{all_fit-update, all_fit-insert}
use documents_rag.Ingestion.Status.{create_pending_job, abandon, stale_recovery_message}
use documents_rag.Ingestion.Retry.{
  is_stale_processing, settle, open_attempt, retry_latest, retry_job, retry_undeleted,
  retry_ingestion, answer, already_active,
}
use documents_rag.Ingestion.Retry.Outcomes.{MayRetry, Created}

-- No job but the latest one is active: what the partial unique index and insertion in the order of
-- time maintain.
abbrev pub OnlyLatestActive : ℕ → List IngestionJob → Type 0
OnlyLatestActive d jobs =
    has_active d jobs
    ≡ elim (latest_for d jobs) [ none ↦ false | some j ↦ ingestion_active j.status ]

module _ (env : Env) (stale : ℕ) (later : Db → Db) (db : Db) (d : ℕ) (fine : IsConsistent db) where
  abbrev new_job : IngestionJob
  new_job = create_pending_job env 0 d

  open_attempt-opens :
      (change : List IngestionJob → List IngestionJob)
      → has_clash (change db.ingestion_jobs) ≡ false
      → has_active d (change db.ingestion_jobs) ≡ false
      → all (λ (j : IngestionJob). fits j.error_message) (change db.ingestion_jobs) ≡ true
      → Created new_job (open_attempt env change (λ x. x) later db d)
  unfolding open_attempt settle
  open_attempt-opens change c a f =
      let rows = change db.ingestion_jobs ++ new_job ∷ [] in
      let after : Db = record db { ingestion_jobs = rows } in
      rw (
        commit_ok db after (
          ingestion-IsConsistent db rows fine
            (ground (arith, has_clash-insert (change db.ingestion_jobs) new_job))
            (all_fit-insert (change db.ingestion_jobs) new_job f refl)))

  module _ (short : fits (some (stale_recovery_message stale)) ≡ true) where
    abandoned-opens :
        (latest : IngestionJob)
        → latest.document_id ≡ d
        → Memᴰ latest db.ingestion_jobs
        → ingestion_active latest.status ≡ true
        → Created new_job
            (open_attempt env (update_row latest.id (abandon env stale)) (λ x. x) later db d)
    abandoned-opens latest doc there active =
        let jobs = db.ingestion_jobs in
        open_attempt-opens (update_row latest.id (abandon env stale))
          (has_clash-update latest.id (abandon env stale) (λ j. refl) (λ j a. absurd (cc)) jobs
            fine.ingestion_unique)
          (rw (← doc) (
            has_active-retire (abandon env stale) (λ j. refl) (λ j. refl) jobs latest
              fine.ingestion_unique there active))
          (all_fit-update latest.id (abandon env stale) (λ j f. short) jobs fine.ingestion_fits)

    retry_latest-opens :
        (status : IngestionStatus) (latest : IngestionJob)
        → latest.status ≡ status
        → latest.document_id ≡ d
        → Memᴰ latest db.ingestion_jobs
        → MayRetry env stale (some latest)
        → has_active d db.ingestion_jobs ≡ ingestion_active latest.status
        → Created new_job (retry_latest env stale (λ x. x) later db d status latest)
    unfolding retry_latest
    retry_latest-opens IngestionStatus.completed latest e doc there may sole = ground arith
    retry_latest-opens IngestionStatus.pending latest e doc there may sole = ground arith
    retry_latest-opens IngestionStatus.failed latest e doc there may sole =
        open_attempt-opens (λ jobs. jobs) fine.ingestion_unique (sole ∙ ap ingestion_active e)
          fine.ingestion_fits
    retry_latest-opens IngestionStatus.processing latest e doc there may sole =
        if_holds (Created new_job) (is_stale_processing env stale latest)
          (open_attempt env (update_row latest.id (abandon env stale)) (λ x. x) later db d)
          (answer db already_active (some latest))
          (λ s. abandoned-opens latest doc there (ap ingestion_active e))
          (λ s. absurd (ground arith))

    retry_job-opens :
        (latest : Option IngestionJob)
        → latest_for d db.ingestion_jobs ≡ latest
        → MayRetry env stale latest
        → has_active d db.ingestion_jobs
          ≡ elim latest [ none ↦ false | some j ↦ ingestion_active j.status ]
        → Created new_job (retry_job env stale (λ x. x) later db d latest)
    unfolding retry_job
    retry_job-opens none e may sole =
        open_attempt-opens (λ jobs. jobs) fine.ingestion_unique sole fine.ingestion_fits
    retry_job-opens (some latest) e may sole =
        let (doc, there) = mem-latest_for d db.ingestion_jobs latest e in
        retry_latest-opens latest.status latest refl doc there may sole

    retry_undeleted-opens :
        (document : Option Document)
        → is_some document ≡ true
        → MayRetry env stale (latest_for d db.ingestion_jobs)
        → OnlyLatestActive d db.ingestion_jobs
        → Created new_job (retry_undeleted env stale (λ x. x) later db d document none)
    unfolding retry_undeleted
    retry_undeleted-opens none there may sole = absurd (cc)
    retry_undeleted-opens (some document) there may sole =
        retry_job-opens (latest_for d db.ingestion_jobs) refl may sole

    -- In a consistent database, undisturbed before its commit, a retry answers CREATED whenever the
    -- document exists, has no deletion job, its latest attempt is absent, failed or stale while
    -- processing, and no job but the latest one is active, if the recovery marker fits its column.
    pub retry_ingestion-opens :
        is_some (get d db.documents) ≡ true
        → latest_for d db.deletion_jobs ≡ none
        → MayRetry env stale (latest_for d db.ingestion_jobs)
        → OnlyLatestActive d db.ingestion_jobs
        → Created new_job (retry_ingestion env stale (λ x. x) later db d)
    unfolding retry_ingestion
    retry_ingestion-opens there undeleted may sole =
        rw undeleted (retry_undeleted-opens (get d db.documents) there may sole)
