-- ===== src/Tests/Recovery.antt =====
-- A recovery sweep over one hung and one failed attempt.
use documents_rag.Base.{◌≡◌, refl, inl, [], ◌∷◌, some, true, false, ok, decimal, Memᴰ, All, arith}
use documents_rag.Db.{Db, fits}
use documents_rag.Db.Commit.{IsConsistent, violation-none}
use documents_rag.Db.Distinct.{DistinctIds}
use documents_rag.Db.Models.{ingestion_key, ingestion_row}
use documents_rag.Ingestion.Status.{stale_recovery_message}
use documents_rag.Ingestion.Recovery.{RecoveryResult, recover_stale_ingestion_jobs}
use documents_rag.Ingestion.Recovery.Outcomes.{
  recover_stale_ingestion_jobs-report, recover_stale_ingestion_jobs-untouched,
}
use documents_rag.Ingestion.Recovery.Tracks.{IsReplaced}
use documents_rag.Tests.Data.{env, failed_job, hung_job, with_jobs, schema}

abbrev hung_db : Db
hung_db = with_jobs (failed_job ∷ hung_job ∷ [])

hung_db-IsConsistent : IsConsistent hung_db
unfolding schema
hung_db-IsConsistent = violation-none hung_db refl

hung_db-DistinctIds : DistinctIds hung_db.ingestion_jobs
hung_db-DistinctIds = ((ground arith, tt), (tt, tt))

marker-fits : fits (some (stale_recovery_message 900)) ≡ true
unfolding stale_recovery_message decimal
marker-fits = refl

recover_stale_ingestion_jobs-report_example :
    (report : RecoveryResult) × ((recover_stale_ingestion_jobs env (λ i. false) 10 900 hung_db).1
      ≡ ok report)
    × IsConsistent (recover_stale_ingestion_jobs env (λ i. false) 10 900 hung_db).0
    × All
        (IsReplaced env 900 hung_db.ingestion_jobs
          (recover_stale_ingestion_jobs env (λ i. false) 10 900 hung_db).0.ingestion_jobs
          (recover_stale_ingestion_jobs env (λ i. false) 10 900 hung_db).0.ingestion_jobs)
        report
recover_stale_ingestion_jobs-report_example =
    recover_stale_ingestion_jobs-report env (λ i. false) 10 900 hung_db hung_db-DistinctIds
      hung_db-IsConsistent marker-fits

recover_stale_ingestion_jobs-untouched_example :
    Memᴰ failed_job (recover_stale_ingestion_jobs env (λ i. false) 10 900 hung_db).0.ingestion_jobs
recover_stale_ingestion_jobs-untouched_example =
    recover_stale_ingestion_jobs-untouched env (λ i. false) 10 900 hung_db hung_db-DistinctIds
      failed_job (Memᴰ.head refl) (inl refl)
