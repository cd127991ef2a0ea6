-- ===== src/Ingestion/Recovery.antt =====
-- app/services/ingestion/stale_recovery_service.py
mod Order
pub mod Sweeps
pub mod Tracks
pub mod Outcomes
use documents_rag.Base.{
  ℕ, ◌+◌, Bool, true, false, ltb, not, ◌++◌, ◌&&◌, ◌||◌, ◌==◌, List, [], ◌∷◌, none, some, Result,
  ok, err, if◌then◌else◌, select, take,
}
use documents_rag.Db.{Db, DbError, commit}
use documents_rag.Db.Env.{Env, seconds}
use documents_rag.Db.Models.{IngestionJob, IngestionStatus, ingestion_key}
use documents_rag.Db.Rows.{update_row}
use documents_rag.Ingestion.Status.{create_pending_job, abandon}

pub record RecoveredJob : Type 0 where
  pub stale_job_id : ℕ
  pub replacement_job_id : ℕ

-- `RecoveryResult.recovered`; `count` is its length.
abbrev pub RecoveryResult : Type 0
RecoveryResult = List RecoveredJob

abbrev pub is_processing : IngestionStatus → Bool
is_processing IngestionStatus.processing = true
is_processing _ = false

-- `ORDER BY updated_at ASC, id ASC`
unfoldable pub insert_oldest : IngestionJob → List IngestionJob → List IngestionJob
insert_oldest x [] = x ∷ []
insert_oldest x (y ∷ ys) =
    if ltb y.updated_at x.updated_at || ((y.updated_at == x.updated_at) && ltb y.id x.id)
    then y ∷ insert_oldest x ys
    else x ∷ y ∷ ys

unfoldable pub order_oldest : List IngestionJob → List IngestionJob
unfolding insert_oldest
order_oldest [] = []
order_oldest (x ∷ xs) = insert_oldest x (order_oldest xs)

-- `updated_at.timestamp() > now.timestamp() - stale_after_seconds`
abbrev pub is_recent : Env → ℕ → IngestionJob → Bool
is_recent env stale_after_seconds job = ltb env.now (job.updated_at + seconds stale_after_seconds)

-- The loop over the candidates: the jobs with the UPDATEs so far, the rows to INSERT, the report,
-- and how many UUIDs are drawn.
pub record Sweep : Type 0 where
  pub jobs : List IngestionJob
  pub rows : List IngestionJob
  pub recovered : List RecoveredJob
  pub drawn : ℕ

-- The stale job is failed and its replacement added.
abbrev pub replace_one : Env → ℕ → Sweep → IngestionJob → Sweep
replace_one env stale s job =
    let replacement = create_pending_job env s.drawn job.document_id in
    record {
      jobs = update_row job.id (abandon env stale) s.jobs;
      rows = s.rows ++ replacement ∷ [];
      recovered =
          s.recovered ++ record { stale_job_id = job.id; replacement_job_id = replacement.id } ∷ [];
      drawn = s.drawn + 1;
    }

unfoldable pub recover_one : Env → ℕ → Sweep → IngestionJob → Sweep
recover_one env stale s job = if is_recent env stale job then s else replace_one env stale s job

unfoldable pub sweep : Env → ℕ → Sweep → List IngestionJob → Sweep
unfolding recover_one
sweep env stale s [] = s
sweep env stale s (job ∷ rest) = sweep env stale (recover_one env stale s job) rest

-- `SKIP LOCKED`: rows that another transaction has locked are passed over.
unfoldable pub candidates : (ℕ → Bool) → ℕ → Db → List IngestionJob
unfolding order_oldest
candidates locked batch_size db = take batch_size (
    order_oldest (
      select (λ (j : IngestionJob). is_processing j.status && not (locked j.id)) db.ingestion_jobs))

unfoldable pub finish_recovery : Db → Sweep → List RecoveredJob → Db × Result DbError RecoveryResult
finish_recovery db s [] = (db, ok [])
finish_recovery db s (r ∷ rs) =
    let (db', raised) = commit db (record db { ingestion_jobs = s.jobs ++ s.rows }) in
    (db', elim raised [ none ↦ ok (r ∷ rs) | some e ↦ err e ])

unfoldable pub recover_stale_ingestion_jobs :
    Env → (ℕ → Bool) → ℕ → ℕ → Db → Db × Result DbError RecoveryResult
unfolding sweep candidates finish_recovery
recover_stale_ingestion_jobs env locked batch_size stale_after_seconds db =
    let start : Sweep = record { jobs = db.ingestion_jobs; rows = []; recovered = []; drawn = 0 } in
    let s = sweep env stale_after_seconds start (candidates locked batch_size db) in
    finish_recovery db s s.recovered
