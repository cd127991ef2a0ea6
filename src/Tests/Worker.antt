-- ===== src/Tests/Worker.antt =====
-- Rounds of the ingestion worker: a success, and an exception with a very long text.
use documents_rag.Base.{ℕ, zero, suc, ◌≡◌, refl, [], ◌∷◌, some, false, err, Text, Memᴰ}
use documents_rag.Db.{Db, value_too_long}
use documents_rag.Db.Commit.{IsConsistent, violation-none}
use documents_rag.Db.Models.{IngestionJob, IngestionStatus, ingestion_key, ingestion_row}
use documents_rag.Ingestion.Worker.{process_next_job, mark_status, claim_next_pending_job}
use documents_rag.Ingestion.Worker.Outcomes.{process_next_job-overlong}
use documents_rag.Tests.Data.{env, hung_job, with_jobs, schema}

abbrev waiting : IngestionJob
waiting = record hung_job { status = IngestionStatus.pending }

abbrev waiting_db : Db
waiting_db = with_jobs (waiting ∷ [])

abbrev running : IngestionJob
running = mark_status env IngestionStatus.processing waiting

abbrev running_db : Db
running_db = with_jobs (running ∷ [])

waiting_db-IsConsistent : IsConsistent waiting_db
unfolding schema
waiting_db-IsConsistent = violation-none waiting_db refl

running_db-IsConsistent : IsConsistent running_db
unfolding schema
running_db-IsConsistent = violation-none running_db refl

claimed : claim_next_pending_job (λ i. false) waiting_db ≡ some waiting
unfolding schema claim_next_pending_job
claimed = refl

abbrev repeated : ℕ → Text
repeated zero = []
repeated (suc n) = 120 ∷ repeated n

process_next_job-overlong_example :
    ((process_next_job env
        (λ i. false)
        (λ d j db. (running_db, running_db, some (repeated 2049)))
        waiting_db).1
      ≡ err value_too_long)
    × Memᴰ running
        (process_next_job env
          (λ i. false)
          (λ d j db. (running_db, running_db, some (repeated 2049)))
          waiting_db).0.ingestion_jobs
process_next_job-overlong_example =
    process_next_job-overlong env (λ i. false) waiting_db waiting claimed
      (λ d j db. (running_db, running_db, some (repeated 2049))) running_db running_db
      (repeated 2049) waiting_db-IsConsistent (tt, tt) refl running_db-IsConsistent (Memᴰ.head refl)
      (Memᴰ.head refl) refl
