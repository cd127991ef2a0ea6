-- ===== src/Ingestion/Worker/Outcomes.antt =====
-- One round of the ingestion worker: from the claim to the terminal status.
use documents_rag.Base.{
  ℕ, ◌≡◌, refl, ap, ◌∙◌, Bool, true, false, not, ◌&&◌, Option, none, some, Result, err, arith, Memᴰ,
  Text, leb,
}
use documents_rag.Db.{Db, DbError, value_too_long, violation, fits}
use documents_rag.Db.Env.{Env}
use documents_rag.Db.Commit.{
  IsConsistent, commit_ok, ingestion-IsConsistent, violation-too_long, commit_refused,
}
use documents_rag.Db.Models.{
  IngestionJob, IngestionStatus, ingestion_row, ingestion_key, document_key, ingestion_active,
}
use documents_rag.Db.Rows.{get}
use documents_rag.Db.Active.{has_clash-update, has_clash-update_at}
use documents_rag.Db.Distinct.{DistinctIds, DistinctIds-eq, All-of_mem, mem-update_self}
use documents_rag.Db.Members.{mem-claim}
use documents_rag.Ingestion.Messages.{all_fit-update, all_fit-mem}
use documents_rag.Ingestion.Worker.{
  Process, claim_next_pending_job, is_pending, mark, mark_status, write_job, reply, finish_job,
  run_claimed, process_next_job,
}

module _ (env : Env) (locked : ℕ → Bool) (db : Db) (job : IngestionJob)
    (claim : claim_next_pending_job locked db ≡ some job) where
  claimed-pending : (is_pending job.status ≡ true) × Memᴰ job db.ingestion_jobs
  unfolding claim_next_pending_job
  claimed-pending =
      let (ok_, there) =
        mem-claim (λ (a b : IngestionJob). leb a.created_at b.created_at)
          (λ (j : IngestionJob). is_pending j.status && not (locked j.id)) db.ingestion_jobs job
          claim in
      (ground (arith, ok_), there)

  abbrev claimed : Db
  claimed = write_job job.id (mark_status env IngestionStatus.processing) db

  -- Only the claimed row, which is active, changes.
  claim-IsConsistent : IsConsistent db → DistinctIds db.ingestion_jobs → IsConsistent claimed
  claim-IsConsistent fine keys =
      ingestion-IsConsistent db claimed.ingestion_jobs fine
        (has_clash-update_at job.id (mark_status env IngestionStatus.processing) (λ j. refl)
          db.ingestion_jobs
          (All-of_mem _ db.ingestion_jobs λ j m q.
            ap (λ (x : IngestionJob). ingestion_active x.status)
              (DistinctIds-eq db.ingestion_jobs j job keys m claimed-pending.1 q)
            ∙ pending_active claimed-pending.0)
          fine.ingestion_unique)
        (all_fit-update job.id (mark_status env IngestionStatus.processing) (λ j f. f)
          db.ingestion_jobs fine.ingestion_fits)
    where
      pending_active : is_pending job.status ≡ true → ingestion_active job.status ≡ true
      pending_active h = ground arith

  abbrev finish : Option Text → IngestionJob → IngestionJob
  finish none = mark_status env IngestionStatus.completed
  finish (some text) = mark env IngestionStatus.failed (some text)

  abbrev running : IngestionJob
  running = mark_status env IngestionStatus.processing job

  started :
      (process : Process)
      → IsConsistent db
      → DistinctIds db.ingestion_jobs
      → process_next_job env locked process db
        ≡ finish_job env running (process (get job.document_id db.documents) running claimed)
  unfolding process_next_job
  started process fine keys =
      rw (claim, process_next_job)
        (ap (run_claimed env process running) (commit_ok db claimed (claim-IsConsistent fine keys)))

  -- In a consistent database with distinct ids, if the processing leaves a consistent database with
  -- the claimed row in it, has committed one with that row in it, and raises an exception whose text
  -- exceeds the message column, the round raises a database error and the row is still processing.
  pub process_next_job-overlong :
      (process : Process) (durable after : Db) (text : Text)
      → IsConsistent db
      → DistinctIds db.ingestion_jobs
      → process (get job.document_id db.documents) running claimed ≡ (durable, after, some text)
      → IsConsistent after
      → Memᴰ running after.ingestion_jobs
      → Memᴰ running durable.ingestion_jobs
      → fits (some text) ≡ false
      → ((process_next_job env locked process db).1 ≡ err value_too_long)
        × Memᴰ running (process_next_job env locked process db).0.ingestion_jobs
  process_next_job-overlong process durable after text fine keys ran fine' there kept long =
      let same = started process fine keys ∙ ap (finish_job env running) ran ∙ refused in
      (ap (λ (x : Db × Result DbError (Option IngestionJob)). x.1) same, rw same kept)
    where
      written : Db
      written = write_job job.id (finish (some text)) after

      too_long : violation written ≡ some value_too_long
      too_long =
          violation-too_long after written.ingestion_jobs fine'
            (has_clash-update job.id (finish (some text)) (λ j. refl) (λ j a. absurd (cc))
              after.ingestion_jobs fine'.ingestion_unique)
            (all_fit-mem written.ingestion_jobs (finish (some text) running)
              (mem-update_self (finish (some text)) after.ingestion_jobs running there) long)

      refused : finish_job env running (durable, after, some text) ≡ (durable, err value_too_long)
      refused =
          unfold finish_job in
          ap (reply (some (finish (some text) running)))
            (commit_refused durable written value_too_long too_long)
