-- ===== src/Documents/Deletion/Requests.antt =====
-- What a deletion request decides, and what it leaves in the table of deletion jobs.
use documents_rag.Base.{
  ℕ, ◌≡◌, refl, sym, ap, ◌∙◌, true, [], ◌∷◌, ◌++◌, Option, none, some, ok, is_some, arith,
}
use documents_rag.Db.{Db, commit}
use documents_rag.Db.Env.{Env}
use documents_rag.Db.Commit.{IsConsistent, violation-none}
use documents_rag.Db.Models.{
  Document, DocumentDeletionJob, DocumentDeletionStatus, IngestionJob, ReindexJob, document_key,
  deletion_row, ingestion_row, reindex_row,
}
use documents_rag.Db.Rows.{get, latest_for, latest_active_for}
use documents_rag.Db.Members.{latest_active_for-insert}
use documents_rag.Documents.Deletion.{
  Reply, created, new_deletion_job, settle, open_deletion, request_idle, request_latest,
  request_after, request_found, request_document_deletion, latest_active_ingestion_job,
  get_active_reindex_job,
}

-- The latest deletion attempt admits a new one: there is none, or it failed half way.
abbrev pub MayDelete : Option DocumentDeletionJob → Type 0
MayDelete none = Unit
MayDelete (some job) = job.status ≡ DocumentDeletionStatus.partially_failed

abbrev pub Created : DocumentDeletionJob → Reply → Type 0
Created job r = r.1 ≡ ok (record { outcome = created; job = some job })

abbrev pub Opens : Env → ℕ → DocumentDeletionJob → Reply → Type 0
Opens env d job r =
    (job ≡ new_deletion_job env d)
    × IsConsistent r.0
    × (latest_active_for d r.0.deletion_jobs ≡ some job)

settle-created :
    (new_job job : DocumentDeletionJob) (d : ℕ) (later : Db → Db) (before after : Db)
    → (settle new_job d later (commit before after)).1
      ≡ ok (record { outcome = created; job = some job })
    → (job ≡ new_job)
      × ((settle new_job d later (commit before after)).0 ≡ after)
      × IsConsistent after
unfolding settle commit
settle-created new_job job d later before after h = ground (arith, violation-none after)

module _ (env : Env) (others later : Db → Db) (db : Db) (d : ℕ) (job : DocumentDeletionJob) where
  open_deletion-Created :
      Created job (open_deletion env others later db d)
      → Opens env d job (open_deletion env others later db d)
  unfolding open_deletion
  open_deletion-Created h =
      let seen = others db in
      let new_job = new_deletion_job env d in
      let after : Db = record seen { deletion_jobs = seen.deletion_jobs ++ new_job ∷ [] } in
      let (same, final, fine) = settle-created new_job job d later seen after h in
      (
        same,
        rw final fine,
        rw final (
            latest_active_for-insert seen.deletion_jobs new_job fine.deletion_unique refl
            ∙ ap some (sym same)),
      )

  request_idle-Created :
      (ingestion : Option IngestionJob) (reindex : Option ReindexJob)
      → Created job (request_idle env others later db d ingestion reindex)
      → (ingestion ≡ none)
        × (reindex ≡ none)
        × Opens env d job (request_idle env others later db d ingestion reindex)
  unfolding request_idle
  request_idle-Created (some ingestion) reindex h = absurd (cc)
  request_idle-Created none (some reindex) h = absurd (cc)
  request_idle-Created none none h = (refl, refl, open_deletion-Created h)

  abbrev Idle : Reply → Type 0
  Idle r =
      (latest_active_ingestion_job db d ≡ none)
      × (get_active_reindex_job db d ≡ none)
      × Opens env d job r

  request_latest-Created :
      (status : DocumentDeletionStatus) (latest : DocumentDeletionJob)
      → latest.status ≡ status
      → Created job (request_latest env others later db d status latest)
      → MayDelete (some latest) × Idle (request_latest env others later db d status latest)
  unfolding request_latest
  request_latest-Created DocumentDeletionStatus.completed latest e h = absurd (cc)
  request_latest-Created DocumentDeletionStatus.pending latest e h = absurd (cc)
  request_latest-Created DocumentDeletionStatus.processing latest e h = absurd (cc)
  request_latest-Created DocumentDeletionStatus.partially_failed latest e h =
      (e, request_idle-Created (latest_active_ingestion_job db d) (get_active_reindex_job db d) h)

  request_after-Created :
      (latest : Option DocumentDeletionJob)
      → Created job (request_after env others later db d latest)
      → MayDelete latest × Idle (request_after env others later db d latest)
  unfolding request_after
  request_after-Created none h =
      (tt, request_idle-Created (latest_active_ingestion_job db d) (get_active_reindex_job db d) h)
  request_after-Created (some latest) h = request_latest-Created latest.status latest refl h

  request_found-Created :
      (document : Option Document)
      → Created job (request_found env others later db d document)
      → (is_some document ≡ true)
        × MayDelete (latest_for d db.deletion_jobs)
        × Idle (request_found env others later db d document)
  unfolding request_found
  request_found-Created none h = absurd (cc)
  request_found-Created (some document) h =
      let (may, idle) = request_after-Created (latest_for d db.deletion_jobs) h in (refl, may, idle)

  -- A deletion request that answers CREATED found the document, a latest deletion attempt that is
  -- absent or failed half way, no ingestion attempt that is latest and active and no active
  -- re-index; the job that it returns is a fresh pending one of this document, and in the database
  -- it leaves, which is consistent, that job is the document's active deletion. This holds whatever
  -- other transactions commit in between.
  pub request_document_deletion-Created :
      Created job (request_document_deletion env others later db d)
      → (is_some (get d db.documents) ≡ true)
        × MayDelete (latest_for d db.deletion_jobs)
        × (latest_active_ingestion_job db d ≡ none)
        × (get_active_reindex_job db d ≡ none)
        × Opens env d job (request_document_deletion env others later db d)
  unfolding request_document_deletion
  request_document_deletion-Created h =
      let (found, may, (ingestion, reindex, opens)) =
        request_found-Created (get d db.documents) h in
      (found, may, ingestion, reindex, opens)
