-- ===== src/Tests/Ingestion.antt =====
-- Retries of a failed and of a stale attempt.
use documents_rag.Base.{◌≡◌, refl, inr, [], ◌∷◌, none, true, is_some, decimal}
use documents_rag.Db.{Db}
use documents_rag.Db.Commit.{IsConsistent, violation-none}
use documents_rag.Db.Models.{IngestionJob, document_key, ingestion_row, deletion_row, completed}
use documents_rag.Db.Rows.{get, latest_for}
use documents_rag.Ingestion.Status.{create_pending_job, stale_recovery_message}
use documents_rag.Ingestion.Retry.{retry_ingestion}
use documents_rag.Ingestion.Retry.Outcomes.{MayRetry, Created, Opens, retry_ingestion-Created}
use documents_rag.Ingestion.Retry.Active.{NamesActive, retry_ingestion-active}
use documents_rag.Ingestion.Retry.Progress.{retry_ingestion-opens}
use documents_rag.Tests.Data.{env, failed_job, hung_job, with_jobs, schema}

abbrev stale_db : Db
stale_db = with_jobs (failed_job ∷ hung_job ∷ [])

stale_db-IsConsistent : IsConsistent stale_db
unfolding schema
stale_db-IsConsistent = violation-none stale_db refl

abbrev retried : IngestionJob
retried = create_pending_job env 0 1

stale_retry : Created retried (retry_ingestion env 900 (λ db. db) (λ db. db) stale_db 1)
unfolding schema retry_ingestion stale_recovery_message decimal
stale_retry = refl

retry_ingestion-Created_example :
    (is_some (get 1 stale_db.documents) ≡ true)
    × (latest_for 1 stale_db.deletion_jobs ≡ none)
    × MayRetry env 900 (latest_for 1 stale_db.ingestion_jobs)
    × Opens env 1 retried (retry_ingestion env 900 (λ db. db) (λ db. db) stale_db 1)
retry_ingestion-Created_example =
    retry_ingestion-Created env 900 (λ db. db) (λ db. db) stale_db 1 retried stale_retry

-- another transaction opens an attempt between the reads and the commit
abbrev rival : Db → Db
rival db = with_jobs (failed_job ∷ record hung_job { id = 12 } ∷ [])

rival-IsConsistent : IsConsistent (rival (with_jobs (failed_job ∷ [])))
unfolding schema
rival-IsConsistent = violation-none (rival (with_jobs (failed_job ∷ []))) refl

-- the winner finishes before it is looked for
abbrev finished : Db → Db
finished db = with_jobs (failed_job ∷ record hung_job { id = 12; status = completed } ∷ [])

retry_ingestion-active_example :
    NamesActive
      (rival (with_jobs (failed_job ∷ [])))
      (finished (rival (with_jobs (failed_job ∷ []))))
      1
      none
unfolding schema retry_ingestion
retry_ingestion-active_example =
    retry_ingestion-active env 900 rival finished (with_jobs (failed_job ∷ [])) 1 rival-IsConsistent
      none refl

retry_ingestion-opens_example :
    Created retried (retry_ingestion env 900 (λ db. db) (λ db. db) stale_db 1)
unfolding schema stale_recovery_message decimal
retry_ingestion-opens_example =
    retry_ingestion-opens env 900 (λ db. db) stale_db 1 stale_db-IsConsistent refl refl refl
      (inr (refl, refl)) refl
