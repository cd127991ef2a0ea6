-- ===== src/Indexing/Activation/Outcomes.antt =====
-- What an activation requires, and what it leaves.
use documents_rag.Base.{
  ℕ, ◌≡◌, ◌≢◌, if◌then◌else◌, refl, sym, ap, ◌∙◌, true, false, [], Option, none, some, ok, Text,
  if_holds, is_some, text_eq_iff,
}
use documents_rag.Db.{Db, DbError, commit, same_text}
use documents_rag.Db.Env.{Env}
use documents_rag.Db.Lookup.{get-id, get-update_row, commit-final}
use documents_rag.Db.Models.{
  Document, DocumentDeletionJob, IndexCollection, ReindexJob, deletion_row, document_key,
  reindex_key,
}
use documents_rag.Db.Rows.{get, update_row, latest_for}
use documents_rag.Indexing.Registry.{get_collection}
use documents_rag.Indexing.Vectors.Outcomes.{is_tracked}
use documents_rag.Indexing.Activation.Tracking.{get_collection-name, switched-tracks}
use documents_rag.Indexing.Activation.{
  ReindexActivationOutcome, Reply, answer, serve, stamp, switched, settle_activation, activate_into,
  activate_document, activate_built, activate_job, is_completed, activate_reindexed_document,
}

-- The job is a finished build for the document as it is served now, and nothing deletes the
-- document.
pub record IsReady (db : Db) (job : ReindexJob) (document : Document) (target : IndexCollection)
    : Type 0 where
  pub not_activated : is_some job.activated_at ≡ false
  pub completed : is_completed job.status ≡ true
  pub found : get job.document_id db.documents ≡ some document
  pub not_deleted : latest_for job.document_id db.deletion_jobs ≡ none
  pub source_served : same_text document.collection_name (some job.source_collection_name) ≡ true
  pub target_known : get_collection job.target_collection_name db.collections ≡ some target

same_text-eq : (o : Option Text) (t : Text) → same_text o (some t) ≡ true → o ≡ some t
same_text-eq none t h = absurd (cc)
same_text-eq (some u) t h = ap some ((text_eq_iff u t).0 h)

module _ (env : Env) (db : Db) (final_job : ReindexJob) (final_document : Document) where
  abbrev pub Activated : Reply → Type 0
  Activated r =
      r.1
      ≡ ok (record {
        outcome = ReindexActivationOutcome.activated;
        job = some final_job;
        document = some final_document;
      })

  -- the database of the reply, and what the reply names
  abbrev Switched : ReindexJob → Document → IndexCollection → Reply → Type 0
  Switched job document target r =
      (final_job ≡ stamp env job)
      × (final_document ≡ serve env target document)
      × (r.0 ≡ switched env db job document target)

  settled :
      (job : ReindexJob) (document : Document) (saved : Db × Option DbError)
      → Activated (settle_activation job document saved)
      → (saved.1 ≡ none)
        × (final_job ≡ job)
        × (final_document ≡ document)
        × ((settle_activation job document saved).0 ≡ saved.0)
  unfolding settle_activation
  settled job document (now, none) h = (refl, cc, cc, refl)
  settled job document (now, some e) h = absurd (cc)

  module _ (job : ReindexJob) where
    abbrev Done : Reply → Type 0
    Done r =
        (document : Document) × (target : IndexCollection) × IsReady db job document target
        × Switched job document target r

    activate_into-Done :
        (document : Document) (target : Option IndexCollection)
        → ((c : IndexCollection) → target ≡ some c → IsReady db job document c)
        → Activated (activate_into env db job document target)
        → Done (activate_into env db job document target)
    unfolding activate_into
    activate_into-Done document none ready h = absurd (cc)
    activate_into-Done document (some c) ready h =
        let after = switched env db job document c in
        let (went, same_job, same_document, same_db) =
          settled (stamp env job) (serve env c document) (commit db after) h in
        (document, c, ready c refl, (same_job, same_document, same_db ∙ commit-final db after went))

    activate_document-Done :
        (document : Document) (deletion : Option DocumentDeletionJob)
        → ((c : IndexCollection)
            → deletion ≡ none
            → same_text document.collection_name (some job.source_collection_name) ≡ true
            → get_collection job.target_collection_name db.collections ≡ some c
            → IsReady db job document c)
        → Activated (activate_document env db job document deletion)
        → Done (activate_document env db job document deletion)
    unfolding activate_document
    activate_document-Done document (some deletion) ready h = absurd (cc)
    activate_document-Done document none ready h =
        if_holds (λ r. Activated r → Done r)
          (same_text document.collection_name (some job.source_collection_name))
          (activate_into env db job document
            (get_collection job.target_collection_name db.collections))
          (answer db ReindexActivationOutcome.source_changed (some job) (some document))
          (λ s.
            activate_into-Done document (get_collection job.target_collection_name db.collections)
              (λ c known. ready c refl s known))
          (λ s made. absurd (cc)) h

    activate_built-Done :
        (document : Option Document)
        → get job.document_id db.documents ≡ document
        → is_some job.activated_at ≡ false
        → is_completed job.status ≡ true
        → Activated (activate_built env db job document)
        → Done (activate_built env db job document)
    unfolding activate_built
    activate_built-Done none e a b h = absurd (cc)
    activate_built-Done (some document) e a b h =
        activate_document-Done document (latest_for job.document_id db.deletion_jobs)
          (λ c no_deletion source known. record {
            not_activated = a;
            completed = b;
            found = e;
            not_deleted = no_deletion;
            source_served = source;
            target_known = known;
          })
          h

  activate_job-Done :
      (job : Option ReindexJob)
      → Activated (activate_job env db job)
      → (j : ReindexJob) × (job ≡ some j) × Done j (activate_job env db job)
  unfolding activate_job
  activate_job-Done none h = absurd (cc)
  activate_job-Done (some job) h =
      if_holds (λ r. Activated r → (j : ReindexJob) × (some job ≡ some j) × Done j r)
        (is_some job.activated_at)
        (answer db ReindexActivationOutcome.already_activated (some job) none)
        (if is_completed job.status
          then activate_built env db job (get job.document_id db.documents)
          else answer db ReindexActivationOutcome.not_ready (some job) none)
        (λ a made. absurd (cc))
        (λ a.
          if_holds (λ r. Activated r → (j : ReindexJob) × (some job ≡ some j) × Done j r)
            (is_completed job.status) (activate_built env db job (get job.document_id db.documents))
            (answer db ReindexActivationOutcome.not_ready (some job) none)
            (λ b made.
              (job, refl, activate_built-Done job (get job.document_id db.documents) refl a b made))
            (λ b made. absurd (cc)))
        h

  -- An activation that answers ACTIVATED had a completed, not yet activated build for the
  -- document, with no deletion job, whose source collection the document served. In the database
  -- it leaves the document serves the target collection with the metadata of its row, every
  -- collection that was tracked for the document (and is not nameless) still is, so its vectors
  -- will be cleaned up, and another activation of the same job changes nothing and answers
  -- ALREADY_ACTIVATED.
  pub activate_reindexed_document-Activated :
      (job_id : ℕ)
      → Activated (activate_reindexed_document env db job_id)
      → let r = activate_reindexed_document env db job_id in
        (job : ReindexJob) × (get job_id db.reindex_jobs ≡ some job)
        × (document : Document) × (target : IndexCollection) × IsReady db job document target
        × (get document.id r.0.documents ≡ some (serve env target document))
        × ((c : Text)
            → c ≢ []
            → is_tracked db document c ≡ true
            → is_tracked r.0 (serve env target document) c ≡ true)
        × ((env' : Env)
            → activate_reindexed_document env' r.0 job_id
              ≡ answer r.0 ReindexActivationOutcome.already_activated (some (stamp env job)) none)
  unfolding activate_reindexed_document switched activate_job
  activate_reindexed_document-Activated job_id h =
      let (job, at, (document, target, ready, (same_job, same_document, final))) =
        activate_job-Done (get job_id db.reindex_jobs) h in
      let same = get-id job_id db.reindex_jobs job at in
      let stamped =
        ap (λ i. get i (update_row job.id (stamp env) db.reindex_jobs)) (sym same)
        ∙ get-update_row job.id (stamp env) db.reindex_jobs job (λ y. refl)
            (ap (λ i. get i db.reindex_jobs) same ∙ at) in
      let owner = get-id job.document_id db.documents document ready.found in
      (
        job,
        at,
        document,
        target,
        ready,
        rw final (
            get-update_row document.id (serve env target) db.documents document (λ y. refl)
              (ap (λ i. get i db.documents) owner ∙ ready.found)),
        rw final (
            switched-tracks env db job document target owner
              (same_text-eq document.collection_name job.source_collection_name ready.source_served)
              (get_collection-name job.target_collection_name db.collections target
                ready.target_known)),
        (λ env'. rw final (ap (activate_job env' (switched env db job document target)) stamped)),
      )
