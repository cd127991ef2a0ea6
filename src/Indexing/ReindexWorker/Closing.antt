-- ===== src/Indexing/ReindexWorker/Closing.antt =====
-- How a started job of app/services/indexing/reindex_worker.py is closed.
use documents_rag.Base.{
  ℕ, zero, suc, ◌≤◌, ◌≡◌, ◌≢◌, refl, sym, ◌∙◌, true, false, [], ◌∷◌, Option, none, some, Text,
  length, take, arith, if_holds, text_eq,
}
use mathlib.Core.Path.{subst}
use mathlib.Core.Bool.{true≢false}
use documents_rag.Db.{Db, fits}
use documents_rag.Db.Active.{has_clash-update}
use documents_rag.Db.Commit.{IsConsistent, commit_ok, reindex-IsConsistent}
use documents_rag.Db.Env.{Env}
use documents_rag.Db.Lookup.{get-update_row, all-update_row}
use documents_rag.Db.Models.{
  Document, DocumentDeletionJob, IndexCollection, ReindexJob, reindex_active, reindex_row,
  reindex_key, deletion_row, document_key,
}
use documents_rag.Db.Rows.{get, latest_for}
use documents_rag.Indexing.Config.{EmbeddingIndexConfig, collection_name, checked}
use documents_rag.Indexing.Registry.{get_collection}
use documents_rag.Indexing.ReindexWorker.{
  ReindexWorkerOutcome, Reply, Build, is_processing, fail_job, complete_job, write_reindex, report,
  close_job, fail, finish_row, after_build, run_build, config_of, run_target, run_found,
  run_started, bounded_reindex_message, max_reindex_message_length, unknown_target_message,
  missing_message, mismatch_message, late_message, blocked_message,
}

length-take : (n : ℕ) (t : Text) → length (take n t) ≤ n
length-take zero t = omega arith
length-take (suc n) [] = omega arith
length-take (suc n) (c ∷ cs) = omega (arith, length-take n cs)

bounded-fits : (message : Text) → fits (some (bounded_reindex_message message)) ≡ true
bounded-fits message = ground (arith, length-take max_reindex_message_length message)

-- The job's row is there, and is neither pending nor processing.
abbrev pub IsClosed : ℕ → Db → Type 0
IsClosed i db =
    (row : ReindexJob) × (get i db.reindex_jobs ≡ some row) × (reindex_active row.status ≡ false)

abbrev pub Closes : ReindexJob → Reply → Type 0
Closes job r = IsConsistent r.0 × IsClosed job.id r.0

-- The row is there, in a consistent database.
abbrev pub Holds : ReindexJob → Db → Type 0
Holds job db = IsConsistent db × ((row : ReindexJob) × (get job.id db.reindex_jobs ≡ some row))

close_job-Closes :
    (job : ReindexJob) (change : ReindexJob → ReindexJob) (outcome : ReindexWorkerOutcome) (db : Db)
    (row : ReindexJob)
    → ((j : ReindexJob) → (change j).id ≡ j.id)
    → ((j : ReindexJob) → (change j).document_id ≡ j.document_id)
    → ((j : ReindexJob) → reindex_active (change j).status ≡ false)
    → ((j : ReindexJob) → fits (change j).error_message ≡ true)
    → IsConsistent db
    → get job.id db.reindex_jobs ≡ some row
    → Closes job (close_job job change outcome db (some row))
unfolding close_job
close_job-Closes job change outcome db row same owner inactive short fine there =
    let after = write_reindex job.id change db in
    let kept : IsConsistent after =
      reindex-IsConsistent db after.reindex_jobs fine
        (has_clash-update job.id change owner (λ j a. absurd (true≢false (sym a ∙ inactive j)))
          db.reindex_jobs fine.reindex_unique)
        (all-update_row job.id change (λ (j : ReindexJob). fits j.error_message) db.reindex_jobs
          (λ j f. short j) fine.reindex_fits) in
    subst (λ s. Closes job (report job outcome s)) (sym (commit_ok db after kept))
      (
        kept,
        (change row, get-update_row job.id change db.reindex_jobs row same there, inactive row),
      )

module _ (repr : Text → Text) (prefix : Text) (build : Build) (env : Env) (job : ReindexJob) where
  fail-Closes :
      (message : Text) (outcome : ReindexWorkerOutcome) (db : Db)
      → Holds job db
      → Closes job (fail env job message outcome db)
  unfolding fail
  fail-Closes message outcome db (fine, (row, there)) =
      subst (λ o. Closes job (close_job job (fail_job env message) outcome db o)) (sym there)
        (close_job-Closes job (fail_job env message) outcome db row (λ j. refl) (λ j. refl)
          (λ j. refl) (λ j. bounded-fits message) fine there)

  finish_row-Closes :
      (db : Db)
      → Holds job db
      → Closes job (finish_row repr prefix build env job db (get job.id db.reindex_jobs))
  unfolding finish_row
  finish_row-Closes db (fine, (row, there)) =
      subst (λ o. Closes job (finish_row repr prefix build env job db o)) (sym there)
        (if_holds (Closes job) (is_processing row.status)
          (close_job job (complete_job env) ReindexWorkerOutcome.completed db (some row))
          (close_job job (fail_job env (late_message repr prefix build env job row.status))
            ReindexWorkerOutcome.failed db (some row))
          (λ e.
            close_job-Closes job (complete_job env) ReindexWorkerOutcome.completed db row
              (λ j. refl) (λ j. refl) (λ j. refl) (λ j. refl) fine there)
          (λ e.
            close_job-Closes job (fail_job env (late_message repr prefix build env job row.status))
              ReindexWorkerOutcome.failed db row (λ j. refl) (λ j. refl) (λ j. refl)
              (λ j. bounded-fits (late_message repr prefix build env job row.status)) fine there))

  after_build-Closes :
      (built : Db × Option Text)
      → Holds job built.0
      → Closes job (after_build repr prefix build env job built)
  unfolding after_build
  after_build-Closes (db, some raised) holds =
      fail-Closes raised ReindexWorkerOutcome.failed db holds
  after_build-Closes (db, none) holds = finish_row-Closes db holds

  -- The build, whatever it is asked to do on this database, keeps the job's row and the constraints.
  abbrev pub Keeps : Db → Type 0
  Keeps db =
      (document : Document) (config : EmbeddingIndexConfig)
      → Holds job (build document config job.target_chunk_size job.target_chunk_overlap db).0

  run_build-Closes :
      (document : Document) (db : Db) (config : Option EmbeddingIndexConfig)
      → config ≢ none
      → Keeps db
      → Holds job db
      → Closes job (run_build repr prefix build env job document db config)
  unfolding run_build
  run_build-Closes document db none valid keeps holds = absurd (valid refl)
  run_build-Closes document db (some config) valid keeps holds =
      if_holds (Closes job) (text_eq (collection_name config) job.target_collection_name)
        (after_build repr prefix build env job
          (build document config job.target_chunk_size job.target_chunk_overlap db))
        (fail env job (mismatch_message repr prefix build env job config)
          ReindexWorkerOutcome.failed db)
        (λ e. after_build-Closes _ (keeps document config))
        (λ e.
          fail-Closes (mismatch_message repr prefix build env job config)
            ReindexWorkerOutcome.failed db holds)

  -- The configuration that the target's row spells is a valid one.
  abbrev pub IsSpelled : Db → Type 0
  IsSpelled db =
      (c : IndexCollection)
      → get_collection job.target_collection_name db.collections ≡ some c
      → checked (config_of repr prefix build env c) ≢ none

  run_target-Closes :
      (document : Document) (db : Db) (target : Option IndexCollection)
      → ((c : IndexCollection)
          → target ≡ some c
          → checked (config_of repr prefix build env c) ≢ none)
      → Keeps db
      → Holds job db
      → Closes job (run_target repr prefix build env job document db target)
  unfolding run_target
  run_target-Closes document db none valid keeps holds =
      fail-Closes (unknown_target_message repr prefix build env job) ReindexWorkerOutcome.failed db
        holds
  run_target-Closes document db (some c) valid keeps holds =
      run_build-Closes document db (checked (config_of repr prefix build env c)) (valid c refl)
        keeps holds

  run_found-Closes :
      (document : Document) (db : Db) (deletion : Option DocumentDeletionJob)
      → IsSpelled db
      → Keeps db
      → Holds job db
      → Closes job (run_found repr prefix build env job document db deletion)
  unfolding run_found
  run_found-Closes document db (some deletion) valid keeps holds =
      fail-Closes (blocked_message repr prefix build env job deletion.status)
        ReindexWorkerOutcome.skipped_deleted db holds
  run_found-Closes document db none valid keeps holds =
      run_target-Closes document db (get_collection job.target_collection_name db.collections) valid
        keeps holds

  pub run_started-Closes :
      (db : Db) (document : Option Document)
      → IsSpelled db
      → Keeps db
      → Holds job db
      → Closes job (run_started repr prefix build env job db document)
  unfolding run_started
  run_started-Closes db none valid keeps holds =
      fail-Closes (missing_message repr prefix build env job) ReindexWorkerOutcome.failed db holds
  run_started-Closes db (some document) valid keeps holds =
      run_found-Closes document db (latest_for job.document_id db.deletion_jobs) valid keeps holds
