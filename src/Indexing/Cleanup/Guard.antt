-- ===== src/Indexing/Cleanup/Guard.antt =====
-- The guard of app/services/indexing/cleanup_job_service.py.
use documents_rag.Base.{
  ℕ, ◌≡◌, ◌≢◌, refl, sym, ap, ◌∙◌, ◌⊎◌, Bool, true, false, ◌==◌, ==_iff, Option, none, some, ok,
  err, Text, text_eq_iff, if_holds, Bool-cases, inl, inr,
}
use documents_rag.Db.{Db, DbError, commit, same_text}
use mathlib.Core.Bool.{true≢false}
use documents_rag.Db.Env.{Env}
use documents_rag.Db.Models.{Document, VectorCleanupJob, document_key, cleanup_key}
use documents_rag.Db.Rows.{get}
use documents_rag.External.{VectorStore}
use documents_rag.Indexing.Cleanup.{
  no_job_result, Retried, commit_retry, after_delete, is_serving, retry_cleanup_job, Round, report,
  retry_fresh, retry_claimed, process_next_vector_cleanup_job, fail_cleanup, write_cleanup,
  active_collection_guard_message,
}

module _ (store : VectorStore) where
  open store use {State, delete_by_document_id, holds, delete-others}

  commit_retry-state :
      (b : Bool) (saved : Db × Option DbError) (s : State) → (commit_retry store b saved s).1 ≡ s
  commit_retry-state b (db, none) s = refl
  commit_retry-state b (db, some e) s = refl

  report-state : (job : VectorCleanupJob) (r : Retried store) → (report store job r).1 ≡ r.1
  report-state job (db, s, ok b) = refl
  report-state job (db, s, err e) = refl

  after_delete-state :
      (env : Env) (job : VectorCleanupJob) (db : Db) (deleted : State × Option Text)
      → (after_delete store env job db deleted).1 ≡ deleted.0
  unfolding after_delete
  after_delete-state env job db (s, none) = commit_retry-state true _ s
  after_delete-state env job db (s, some raised) = commit_retry-state false _ s

  module _ (document : Document) (c : Text) (serves : document.collection_name ≡ some c) where
    -- the retry of a cleanup of this very collection and document stops at the guard
    other_target :
        (db : Db) (job : VectorCleanupJob)
        → get document.id db.documents ≡ some document
        → is_serving (get job.document_id db.documents) job.collection_name ≡ false
        → (c ≢ job.collection_name) ⊎ (document.id ≢ job.document_id)
    other_target db job there free = elim (Bool-cases (document.id == job.document_id)) [
      | inl e ↦
          inl λ q. true≢false (sym (served ((==_iff document.id job.document_id).0 e) q) ∙ free)
      | inr e ↦ inr λ q. true≢false (sym ((==_iff document.id job.document_id).1 q) ∙ e)
    ]
      where
        served :
            document.id ≡ job.document_id
            → c ≡ job.collection_name
            → is_serving (get job.document_id db.documents) job.collection_name ≡ true
        served same q =
            ap (λ i. is_serving (get i db.documents) job.collection_name) (sym same)
            ∙ ap (λ o. is_serving o job.collection_name) there
            ∙ ap (λ o. same_text o (some job.collection_name)) serves
            ∙ (text_eq_iff c job.collection_name).1 q

    retry-keeps :
        (env : Env) (between : Db → Db) (db : Db) (job : VectorCleanupJob) (s : State)
        → get document.id db.documents ≡ some document
        → holds (retry_cleanup_job store env between db job s).1 c document.id
          ≡ holds s c document.id
    unfolding retry_cleanup_job
    retry-keeps env between db job s there =
        if_holds (λ (r : Retried store). holds r.1 c document.id ≡ holds s c document.id)
          (is_serving (get job.document_id db.documents) job.collection_name)
          (commit_retry store false
            (commit (between db) (
              write_cleanup job.id (fail_cleanup active_collection_guard_message job) (between db)))
            s)
          (after_delete store env job (between db)
            (delete_by_document_id job.collection_name job.document_id s))
          (λ e. ap (λ t. holds t c document.id) (commit_retry-state false _ s))
          (λ e.
            ap (λ t. holds t c document.id) (after_delete-state env job (between db) _)
            ∙ delete-others job.collection_name job.document_id s c document.id
                (other_target db job there e))

    retry_fresh-keeps :
        (env : Env) (between : Db → Db) (db : Db) (job : VectorCleanupJob)
        (fresh : Option VectorCleanupJob) (s : State) (r : Round store)
        → get document.id db.documents ≡ some document
        → retry_fresh store env between db job fresh s ≡ some r
        → holds r.1 c document.id ≡ holds s c document.id
    unfolding retry_fresh
    retry_fresh-keeps env between db job none s r there h = absurd (cc)
    retry_fresh-keeps env between db job (some fresh_job) s r there h =
        let same : report store job (retry_cleanup_job store env between db fresh_job s) ≡ r = cc in
        ap (λ (x : Round store). holds x.1 c document.id) (sym same)
        ∙ ap (λ t. holds t c document.id) (report-state job _)
        ∙ retry-keeps env between db fresh_job s there

    retry_claimed-keeps :
        (env : Env) (others between : Db → Db) (db : Db) (claim : Option VectorCleanupJob)
        (s : State) (r : Round store)
        → get document.id (others db).documents ≡ some document
        → retry_claimed store env others between db claim s ≡ some r
        → holds r.1 c document.id ≡ holds s c document.id
    unfolding retry_claimed
    retry_claimed-keeps env others between db none s r there h =
        let idle : Round store = (db, s, ok no_job_result) in
        let same : idle ≡ r = cc in ap (λ (x : Round store). holds x.1 c document.id) (sym same)
    retry_claimed-keeps env others between db (some job) s r there h =
        retry_fresh-keeps env between (others db) job (get job.id (others db).cleanup_jobs) s r
          there h

  -- A round of the cleanup worker leaves the vectors of every document in the collection that the
  -- document serves when the guard reads it as they were: whatever job it claims, whatever others
  -- commit before the retry and after the guard, and whether the deletion and the commit succeed or
  -- raise.
  pub process_next_vector_cleanup_job-keeps_served :
      (env : Env) (locked : ℕ → Bool) (others between : Db → Db) (db : Db) (s : State)
      (r : Round store) (document : Document) (c : Text)
      → get document.id (others db).documents ≡ some document
      → document.collection_name ≡ some c
      → process_next_vector_cleanup_job store env locked others between db s ≡ some r
      → holds r.1 c document.id ≡ holds s c document.id
  unfolding process_next_vector_cleanup_job
  process_next_vector_cleanup_job-keeps_served env locked others between db s r document c there
        serves =
      retry_claimed-keeps document c serves env others between db _ s r there
