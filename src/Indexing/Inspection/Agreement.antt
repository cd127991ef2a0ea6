-- ===== src/Indexing/Inspection/Agreement.antt =====
-- The inspection beside the scheduler (app/services/indexing/).
use documents_rag.Base.{◌≡◌, refl, true}
use documents_rag.Db.{Db}
use documents_rag.Db.Env.{Env}
use documents_rag.Db.Models.{Document, ReindexJob}
use documents_rag.External.{VectorStore}
use documents_rag.Indexing.Registry.{is_document_stale}
use documents_rag.Indexing.Inspection.{inspect_found}
use documents_rag.Indexing.Scheduling.{Target, schedule_reindex}
use documents_rag.Indexing.Scheduling.Outcomes.{Created, schedule_reindex-Created}

-- Whenever scheduling a re-index onto the active configuration answers CREATED, an inspection of
-- the same tables under that configuration reports that the document can be scheduled; the
-- inspection's flag refuses no document that the scheduler would accept.
pub can_schedule_complete :
    (store : VectorStore) (env : Env) (others later : Db → Db) (db : Db) (s : store.State)
    (document : Document) (target : Target) (job : ReindexJob)
    → Created store env others later db s document target job
        (schedule_reindex store env others later db s document target)
    → (inspect_found db target.config target.chunk_size target.chunk_overlap document).can_schedule
      ≡ true
unfolding inspect_found is_document_stale
can_schedule_complete store env others later db s document target job h =
    let (source, serves, other, idle, (quiet, kept, _)) =
      schedule_reindex-Created store env others later db s document target job h in
    rw serves (rw other (rw idle (rw kept refl)))
