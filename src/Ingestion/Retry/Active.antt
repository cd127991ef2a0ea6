-- ===== src/Ingestion/Retry/Active.antt =====
-- The active job that an answer of app/services/ingestion/retry_service.py names.
use documents_rag.Base.{
  ℕ, ◌≡◌, refl, sym, ◌∙◌, ap, inl, inr, true, false, List, [], ◌∷◌, ◌++◌, Option, none, some, ok,
  is_some, arith, Option-cases, if_holds,
}
use documents_rag.Db.{Db, Constraint, DbError, commit, violation, integrity_error, value_too_long}
use documents_rag.Db.Env.{Env}
use documents_rag.Db.Models.{
  IngestionJob, IngestionStatus, ingestion_row, ingestion_key, deletion_row, document_key,
  ingestion_active, Document, DocumentDeletionJob,
}
use documents_rag.Db.Rows.{get, update_row, latest_for, latest_active_for, has_active, has_clash}
use documents_rag.Db.Commit.{IsConsistent, violation-ingestion}
use documents_rag.Db.Members.{mem-latest_for, mem-latest_active_for}
use documents_rag.Db.Active.{
  has_clash-insert, has_clash-update, has_active-update, is_some-latest_active_for,
}
use mathlib.Core.Path.{subst}
use documents_rag.Ingestion.Status.{create_pending_job, abandon}
use documents_rag.Ingestion.Retry.{
  Reply, already_active, is_stale_processing, settle, open_attempt, retry_latest, retry_job,
  retry_undeleted, answer, retry_ingestion,
}

-- The answer names an active job of the document; or it names none, and then some job was active
-- when the commit was refused and none is any more when it is looked for.
abbrev pub NamesActive : Db → Db → ℕ → Option IngestionJob → Type 0
NamesActive seen reread d none =
    (has_active d seen.ingestion_jobs ≡ true) × (has_active d reread.ingestion_jobs ≡ false)
NamesActive seen reread d (some job) = (job.document_id ≡ d) × (ingestion_active job.status ≡ true)

abbrev Points : Db → Db → ℕ → Reply → Type 0
Points seen reread d r =
    (job : Option IngestionJob)
    → r.1 ≡ ok (record { outcome = already_active; job = job })
    → NamesActive seen reread d job

latest_active-points :
    (d : ℕ) (seen reread : Db)
    → has_active d seen.ingestion_jobs ≡ true
    → NamesActive seen reread d (latest_active_for d reread.ingestion_jobs)
latest_active-points d seen reread h =
    elim (Option-cases (latest_active_for d reread.ingestion_jobs)) [
      | inl e ↦ rw e (h, sym (is_some-latest_active_for d reread.ingestion_jobs) ∙ ap is_some e)
      | inr (job, e) ↦
          let (doc, active, there) = mem-latest_active_for d reread.ingestion_jobs job e in
          rw e (doc, active)
    ]

settle-Points :
    (new_job : IngestionJob) (d : ℕ) (later : Db → Db) (before after : Db) (raised : Option DbError)
    → ((c : Constraint)
        → raised ≡ some (integrity_error c)
        → has_active d before.ingestion_jobs ≡ true)
    → Points before
        (later before)
        d
        (settle new_job d later (elim raised [ none ↦ (after, none) | some e ↦ (before, some e) ]))
unfolding settle
settle-Points new_job d later before after none refused job q = absurd (cc)
settle-Points new_job d later before after (some (integrity_error c)) refused job q =
    subst (NamesActive before (later before) d) (cc)
      (latest_active-points d before (later before) (refused c refl))
settle-Points new_job d later before after (some value_too_long) refused job q = absurd (cc)

module _ (env : Env) (stale : ℕ) (others later : Db → Db) (db : Db) (d : ℕ)
    (fine : IsConsistent (others db)) where
  open_attempt-Points :
      (change : List IngestionJob → List IngestionJob)
      → has_clash (change (others db).ingestion_jobs) ≡ false
      → (has_active d (others db).ingestion_jobs ≡ false
          → has_active d (change (others db).ingestion_jobs) ≡ false)
      → Points (others db) (later (others db)) d (open_attempt env change others later db d)
  unfolding open_attempt commit
  open_attempt-Points change h k =
      let seen = others db in
      let new_job = create_pending_job env 0 d in
      let rows = change seen.ingestion_jobs ++ new_job ∷ [] in
      settle-Points new_job d later seen (record seen { ingestion_jobs = rows })
        (violation (record seen { ingestion_jobs = rows }))
        λ c q. ground (
          arith,
          k,
          has_clash-insert (change seen.ingestion_jobs) new_job,
          violation-ingestion seen rows c fine q,
        )

  retry_latest-Points :
      (status : IngestionStatus) (latest : IngestionJob)
      → latest.status ≡ status
      → latest.document_id ≡ d
      → Points
          (others db)
          (later (others db))
          d
          (retry_latest env stale others later db d status latest)
  unfolding retry_latest
  retry_latest-Points IngestionStatus.completed latest e m = λ job q. absurd (cc)
  retry_latest-Points IngestionStatus.pending latest e m = λ job q.
      subst (NamesActive (others db) (later (others db)) d) {x = some latest} (cc)
        (m, ap ingestion_active e)
  retry_latest-Points IngestionStatus.failed latest e m =
      open_attempt-Points (λ jobs. jobs) fine.ingestion_unique (λ x. x)
  retry_latest-Points IngestionStatus.processing latest e m =
      if_holds (Points (others db) (later (others db)) d) (is_stale_processing env stale latest)
        (open_attempt env (update_row latest.id (abandon env stale)) others later db d)
        (answer db already_active (some latest))
        (λ s.
          open_attempt-Points (update_row latest.id (abandon env stale))
            (has_clash-update latest.id (abandon env stale) (λ j. refl) (λ j a. absurd (cc))
              (others db).ingestion_jobs fine.ingestion_unique)
            (has_active-update latest.id (abandon env stale) (λ j. refl) (λ j a. absurd (cc)) d
              (others db).ingestion_jobs))
        (λ s job q.
          subst (NamesActive (others db) (later (others db)) d) {x = some latest} (cc)
            (m, ap ingestion_active e))

  retry_job-Points :
      (latest : Option IngestionJob)
      → latest_for d db.ingestion_jobs ≡ latest
      → Points (others db) (later (others db)) d (retry_job env stale others later db d latest)
  unfolding retry_job
  retry_job-Points none e = open_attempt-Points (λ jobs. jobs) fine.ingestion_unique (λ x. x)
  retry_job-Points (some latest) e =
      retry_latest-Points latest.status latest refl (mem-latest_for d db.ingestion_jobs latest e).0

  retry_undeleted-Points :
      (document : Option Document) (deletion : Option DocumentDeletionJob)
      → Points
          (others db)
          (later (others db))
          d
          (retry_undeleted env stale others later db d document deletion)
  unfolding retry_undeleted
  retry_undeleted-Points none deletion = λ job q. absurd (cc)
  retry_undeleted-Points (some document) (some deletion) = λ job q. absurd (cc)
  retry_undeleted-Points (some document) none =
      retry_job-Points (latest_for d db.ingestion_jobs) refl

  -- A retry that answers ALREADY_ACTIVE with a job names a pending or processing job of the
  -- document. It names none only after a lost race: then the document had an active job when the
  -- insert was refused, and has none when it is looked for again. Other transactions may commit
  -- anything after the refusal, and before it anything that keeps the schema's constraints.
  pub retry_ingestion-active :
      (job : Option IngestionJob)
      → (retry_ingestion env stale others later db d).1
        ≡ ok (record { outcome = already_active; job = job })
      → NamesActive (others db) (later (others db)) d job
  unfolding retry_ingestion
  retry_ingestion-active =
      retry_undeleted-Points (get d db.documents) (latest_for d db.deletion_jobs)
