-- ===== src/Indexing/Scheduling/Outcomes.antt =====
-- When a re-index is scheduled, and what is there then.
use documents_rag.Base.{
  ◌≡◌, ◌≢◌, refl, sym, ap, ◌∙◌, false, [], ◌∷◌, ◌++◌, Option, none, some, ok, err, Text, text_eq,
  if_holds,
}
use documents_rag.Db.{Db, DbError, commit}
use documents_rag.Db.Env.{Env}
use documents_rag.Db.Commit.{IsConsistent, commit-saved}
use documents_rag.Db.Members.{latest_active_for-insert}
use documents_rag.Db.Models.{
  Document, DocumentDeletionJob, ReindexJob, deletion_row, reindex_row, DocumentDeletionStatus,
}
use documents_rag.Db.Rows.{latest_for}
use documents_rag.External.{VectorStore}
use documents_rag.Documents.Deletion.{get_active_reindex_job}
use documents_rag.Indexing.Config.{collection_name}
use documents_rag.Indexing.Registry.{RegistryError, ensure_active_collection}
use documents_rag.Indexing.Scheduling.{
  ReindexSchedulingOutcome, SchedulingError, Target, running_ingestion, blocked_by, new_reindex_job,
  Reply, answer, answer_winner, settle_schedule, insert_job, schedule_undeleted, schedule_idle,
  schedule_from, schedule_reindex, is_active_reindex_job_violation,
}

module _ (store : VectorStore) (env : Env) (others later : Db → Db) (db : Db) (s : store.State)
    (document : Document) (target : Target) (job : ReindexJob) where
  abbrev pub Created : Reply store → Type 0
  Created r =
      r.2
      ≡ ok (record {
        outcome = ReindexSchedulingOutcome.created;
        document = document;
        job = some job;
        target_config = target.config;
      })

  -- The job is the document's one active re-index, in a consistent database.
  abbrev pub Opens : Text → Reply store → Type 0
  Opens source r =
      (job ≡ new_reindex_job env document source target)
      × IsConsistent r.0
      × (get_active_reindex_job r.0 document.id ≡ some job)

  not_winner :
      (v : store.State) (now : Db) (winner : Option ReindexJob)
      → ¬ Created (answer_winner store now v document target winner)
  not_winner v now none h = absurd (cc)
  not_winner v now (some j) h = absurd (cc)

  settled :
      (new_job : ReindexJob) (later : Db → Db) (saved : Db × Option DbError) (v : store.State)
      → Created (settle_schedule store document target new_job later saved v)
      → (saved.1 ≡ none)
        × (job ≡ new_job)
        × ((settle_schedule store document target new_job later saved v).0 ≡ saved.0)
  unfolding settle_schedule
  settled new_job later (now, none) v h = (refl, cc, refl)
  settled new_job later (now, some e) v h = absurd (
      if_holds (λ r. Created r → ⊥) (is_active_reindex_job_violation e)
        (answer_winner store (later now) v document target
          (get_active_reindex_job (later now) document.id))
        (now, v, err (SchedulingError.db_error e))
        (λ a. not_winner v (later now) (get_active_reindex_job (later now) document.id))
        (λ a made. absurd (cc)) h)

  insert_job-Created :
      (source : Text) (ensured : Db × store.State × Option RegistryError)
      → Created (insert_job store env others later document source target ensured)
      → Opens source (insert_job store env others later document source target ensured)
  unfolding insert_job get_active_reindex_job
  insert_job-Created source (now, v, some e) h = absurd (cc)
  insert_job-Created source (now, v, none) h =
      let seen = others now in
      let new_job = new_reindex_job env document source target in
      let after : Db = record seen { reindex_jobs = seen.reindex_jobs ++ new_job ∷ [] } in
      let (went, same, now_is) = settled new_job later (commit seen after) v h in
      let (final, fine) = commit-saved seen after went in
      (
        same,
        rw now_is (rw final fine),
        rw now_is (
            rw final (
              latest_active_for-insert seen.reindex_jobs new_job fine.reindex_unique refl
              ∙ ap some (sym same))),
      )

  blocked-not_created :
      (status : DocumentDeletionStatus) → blocked_by status ≢ ReindexSchedulingOutcome.created
  blocked-not_created DocumentDeletionStatus.pending e = absurd (cc)
  blocked-not_created DocumentDeletionStatus.processing e = absurd (cc)
  blocked-not_created DocumentDeletionStatus.partially_failed e = absurd (cc)
  blocked-not_created DocumentDeletionStatus.completed e = absurd (cc)

  schedule_undeleted-Created :
      (source : Text) (deletion : Option DocumentDeletionJob)
      → Created (schedule_undeleted store env others later db s document source target deletion)
      → (deletion ≡ none)
        × Opens source
            (schedule_undeleted store env others later db s document source target deletion)
  unfolding schedule_undeleted
  schedule_undeleted-Created source (some deletion) h =
      absurd (blocked-not_created deletion.status (cc))
  schedule_undeleted-Created source none h =
      (refl, insert_job-Created source (ensure_active_collection store env target.config db s) h)

  -- nothing else is going on with the document
  abbrev pub Free : Text → Reply store → Type 0
  Free source r =
      (running_ingestion db document.id ≡ false)
      × (latest_for document.id db.deletion_jobs ≡ none)
      × Opens source r

  schedule_idle-Created :
      (source : Text) (active : Option ReindexJob)
      → Created (schedule_idle store env others later db s document source target active)
      → (active ≡ none)
        × Free source (schedule_idle store env others later db s document source target active)
  unfolding schedule_idle
  schedule_idle-Created source (some active) h = absurd (cc)
  schedule_idle-Created source none h =
      if_holds (λ r. Created r → (◌≡◌ {A = Option ReindexJob} none none) × Free source r)
        (running_ingestion db document.id)
        (answer store db s document target ReindexSchedulingOutcome.ingestion_active none)
        (schedule_undeleted store env others later db s document source target
          (latest_for document.id db.deletion_jobs))
        (λ e made. absurd (cc))
        (λ e made.
          let (kept, opens) =
            schedule_undeleted-Created source (latest_for document.id db.deletion_jobs) made in
          (refl, (e, kept, opens)))
        h

  abbrev pub Scheduled : Option Text → Reply store → Type 0
  Scheduled serving r =
      (source : Text) × (serving ≡ some source)
      × (text_eq source (collection_name target.config) ≡ false)
      × (get_active_reindex_job db document.id ≡ none)
      × Free source r

  schedule_from-Created :
      (serving : Option Text)
      → Created (schedule_from store env others later db s document target serving)
      → Scheduled serving (schedule_from store env others later db s document target serving)
  unfolding schedule_from
  schedule_from-Created none h = absurd (cc)
  schedule_from-Created (some source) h =
      if_holds (λ r. Created r → Scheduled (some source) r)
        (text_eq source (collection_name target.config))
        (answer store db s document target ReindexSchedulingOutcome.already_current none)
        (schedule_idle store env others later db s document source target
          (get_active_reindex_job db document.id))
        (λ e made. absurd (cc))
        (λ e made.
          let (idle, free) =
            schedule_idle-Created source (get_active_reindex_job db document.id) made in
          (source, refl, e, idle, free))
        h

  -- A scheduling call that answers CREATED found a document that serves another collection than
  -- the target, with no active re-index, no ingestion in flight and no deletion job; the job that
  -- it returns is pending, runs from the collection served to the target, and is the document's
  -- active re-index in the consistent database that the call leaves. This holds whatever other
  -- transactions commit in between.
  pub schedule_reindex-Created :
      Created (schedule_reindex store env others later db s document target)
      → (source : Text) × (document.collection_name ≡ some source)
        × (text_eq source (collection_name target.config) ≡ false)
        × (get_active_reindex_job db document.id ≡ none)
        × Free source (schedule_reindex store env others later db s document target)
  unfolding schedule_reindex
  schedule_reindex-Created h = schedule_from-Created document.collection_name h
