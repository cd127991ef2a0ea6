-- ===== src/Ingestion/Worker.antt =====
-- app/services/ingestion/worker.py: the job runner. `process` is the constructor's argument
-- `process_document`: what it has committed, what it has written beyond that, and, as `some text`,
-- the text of its exception. A refused commit rolls the second back to the first.
pub mod Outcomes
use documents_rag.Base.{
  ℕ, Bool, true, false, leb, not, ◌&&◌, List, [], ◌∷◌, Option, none, some, Result, ok, err,
  if◌then◌else◌, select, first, Text,
}
use documents_rag.Db.{Db, DbError, commit}
use documents_rag.Db.Env.{Env}
use documents_rag.Db.Models.{IngestionJob, IngestionStatus, Document, ingestion_key, document_key}
use documents_rag.Db.Rows.{order_by, update_row, get}

abbrev pub is_pending : IngestionStatus → Bool
is_pending IngestionStatus.pending = true
is_pending _ = false

-- `ORDER BY created_at LIMIT 1`, `SKIP LOCKED`
unfoldable pub claim_next_pending_job : (ℕ → Bool) → Db → Option IngestionJob
claim_next_pending_job locked db = first (
    order_by (λ (a b : IngestionJob). leb a.created_at b.created_at)
      (select (λ (j : IngestionJob). is_pending j.status && not (locked j.id)) db.ingestion_jobs))

-- Assignments to the claimed row; `updated_at` follows by `onupdate`.
abbrev pub mark : Env → IngestionStatus → Option Text → IngestionJob → IngestionJob
mark env status message job = record job {
  status = status;
  error_message = message;
  updated_at = env.db_now;
}

-- `status = PROCESSING` and `status = COMPLETED` leave the message alone.
abbrev pub mark_status : Env → IngestionStatus → IngestionJob → IngestionJob
mark_status env status job = record job { status = status; updated_at = env.db_now }

abbrev pub write_job : ℕ → (IngestionJob → IngestionJob) → Db → Db
write_job i f db = record db { ingestion_jobs = update_row i f db.ingestion_jobs }

abbrev pub Process : Type 0
Process = Option Document → IngestionJob → Db → Db × Db × Option Text

abbrev pub reply :
    Option IngestionJob → Db × Option DbError → Db × Result DbError (Option IngestionJob)
reply job (db, none) = (db, ok job)
reply job (db, some e) = (db, err e)

unfoldable pub finish_job :
    Env → IngestionJob → Db × Db × Option Text → Db × Result DbError (Option IngestionJob)
finish_job env job (durable, db, none) =
    reply (some (mark_status env IngestionStatus.completed job))
      (commit durable (write_job job.id (mark_status env IngestionStatus.completed) db))
finish_job env job (durable, db, some text) =
    reply (some (mark env IngestionStatus.failed (some text) job))
      (commit durable (write_job job.id (mark env IngestionStatus.failed (some text)) db))

unfoldable pub run_claimed :
    Env → Process → IngestionJob → Db × Option DbError → Db × Result DbError (Option IngestionJob)
unfolding finish_job
run_claimed env process job (db, some e) = (db, err e)
run_claimed env process job (db, none) =
    finish_job env job (process (get job.document_id db.documents) job db)

unfoldable pub process_next_job :
    Env → (ℕ → Bool) → Process → Db → Db × Result DbError (Option IngestionJob)
unfolding run_claimed claim_next_pending_job
process_next_job env locked process db = elim (claim_next_pending_job locked db) [
  | none ↦ (db, ok none)
  | some job ↦
      let claimed = mark_status env IngestionStatus.processing job in
      run_claimed env process claimed
        (commit db (write_job job.id (mark_status env IngestionStatus.processing) db))
]
