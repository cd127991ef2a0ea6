-- ===== src/Indexing/ReindexWorker/Terminal.antt =====
-- The ends of a round of app/services/indexing/reindex_worker.py.
use documents_rag.Base.{
  ℕ, ◌≡◌, refl, sym, ap, ◌∙◌, ◌||◌, ◌&&◌, Bool, true, not, some, Text, leb, ltb, ◌==◌, arith, Memᴰ,
}
use mathlib.Core.Path.{subst}
use documents_rag.Db.{Db, fits}
use documents_rag.Db.Active.{has_clash-update_at}
use documents_rag.Db.Commit.{IsConsistent, commit_ok, reindex-IsConsistent}
use documents_rag.Db.Distinct.{DistinctIds, DistinctIds-eq, All-of_mem}
use documents_rag.Db.Env.{Env}
use documents_rag.Db.Lookup.{get-mem, get-update_row, all-update_row}
use documents_rag.Db.Members.{mem-claim}
use documents_rag.Db.Models.{
  Document, ReindexJob, reindex_active, reindex_row, reindex_key, deletion_row, document_key,
}
use documents_rag.Db.Rows.{get}
use documents_rag.Indexing.Config.{EmbeddingIndexConfig}
use documents_rag.Indexing.ReindexWorker.{
  Build, is_pending, claim_next_pending_reindex_job, start_job, write_reindex, run_job, run_claim,
  process_next_reindex_job,
}
use documents_rag.Indexing.ReindexWorker.Closing.{Closes, Holds, IsSpelled, run_started-Closes}

module _ (repr : Text → Text) (prefix : Text) (build : Build) (env : Env) (job : ReindexJob) where
  abbrev pub started : Db → Db
  started db = write_reindex job.id (start_job env) db

  started-Holds :
      (db : Db)
      → IsConsistent db
      → DistinctIds db.reindex_jobs
      → is_pending job.status ≡ true
      → Memᴰ job db.reindex_jobs
      → Holds job (started db)
  started-Holds db fine keys pending there = (
    reindex-IsConsistent db (started db).reindex_jobs fine
        (has_clash-update_at job.id (start_job env) (λ j. refl) db.reindex_jobs
          (All-of_mem _ db.reindex_jobs λ j m q.
            ap (λ (x : ReindexJob). reindex_active x.status)
              (DistinctIds-eq db.reindex_jobs j job keys m there q)
            ∙ pending_active pending)
          fine.reindex_unique)
        (all-update_row job.id (start_job env) (λ (j : ReindexJob). fits j.error_message)
          db.reindex_jobs (λ j f. f) fine.reindex_fits),
    (
      start_job env job,
      get-update_row job.id (start_job env) db.reindex_jobs job (λ j. refl)
          (get-mem db.reindex_jobs job keys there),
    ),
  )
    where
      pending_active : is_pending job.status ≡ true → reindex_active job.status ≡ true
      pending_active h = ground arith

  -- A round that claims a job ends it: the database is consistent and the job's row is completed or
  -- failed, whatever the build raises and however long its text is. The tables before are
  -- consistent with distinct ids, the configuration that the target's row spells is valid, and the
  -- build keeps the job's row and the constraints.
  pub process_next_reindex_job-Closes :
      (locked : ℕ → Bool) (db : Db)
      → claim_next_pending_reindex_job locked db ≡ some job
      → IsConsistent db
      → DistinctIds db.reindex_jobs
      → IsSpelled repr prefix build env job db
      → ((document : Document) (config : EmbeddingIndexConfig)
          → Holds job
              (build document config job.target_chunk_size job.target_chunk_overlap (started db)).0)
      → Closes job (process_next_reindex_job repr prefix build env locked db)
  unfolding process_next_reindex_job claim_next_pending_reindex_job run_claim run_job
  process_next_reindex_job-Closes locked db claim fine keys valid keeps =
      let (chosen, there) =
        mem-claim
          (λ (a b : ReindexJob).
            ltb a.created_at b.created_at || ((a.created_at == b.created_at) && leb a.id b.id))
          (λ (j : ReindexJob). is_pending j.status && not (locked j.id)) db.reindex_jobs job
          claim in
      let (kept, row) = started-Holds db fine keys (ground (arith, chosen)) there in
      subst (λ o. Closes job (run_claim repr prefix build env db o)) (sym claim)
        (subst (λ s. Closes job (run_job repr prefix build env (start_job env job) s))
          (sym (commit_ok db (started db) kept))
          (run_started-Closes repr prefix build env (start_job env job) (started db)
            (get job.document_id db.documents) valid keeps (kept, row)))
