-- ===== src/Indexing/Activation/Tracking.antt =====
-- The tracked collections under app/services/indexing/reindex_activation.py.
use documents_rag.Base.{
  ◌≡◌, ◌≢◌, refl, sym, ap, ◌∙◌, Bool, true, ◌||◌, ◌&&◌, ◌==◌, ==-refl, List, [], ◌∷◌, some, Text,
  text_eq, text_eq_iff, any, arith, Bool-cases, inl, inr,
}
use documents_rag.Db.{Db}
use documents_rag.Db.Env.{Env}
use documents_rag.Db.Lookup.{any-update_row, any-append}
use documents_rag.Db.Models.{
  Document, IndexCollection, ReindexJob, VectorCleanupJob, deletion_row, document_key, reindex_key,
}
use documents_rag.Indexing.Registry.{get_collection}
use documents_rag.Indexing.Vectors.{in_list, current_collection, is_unresolved, is_built}
use documents_rag.Indexing.Vectors.Outcomes.{is_tracked}
use documents_rag.Indexing.Activation.{serve, stamp, is_empty, cleanup_of, switched}

pub get_collection-name :
    (name : Text) (cs : List IndexCollection) (c : IndexCollection)
    → get_collection name cs ≡ some c
    → c.collection_name ≡ name
unfolding get_collection
get_collection-name name [] c h = absurd (cc)
get_collection-name name (x ∷ xs) c h =
    ground (arith, get_collection-name name xs c, (text_eq_iff x.collection_name name).0)

module _ (env : Env) (db : Db) (job : ReindexJob) (document : Document) (target : IndexCollection)
    (owner : document.id ≡ job.document_id)
    (serves : document.collection_name ≡ some job.source_collection_name)
    (named : target.collection_name ≡ job.target_collection_name) where
  abbrev open_cleanup : Text → VectorCleanupJob → Bool
  open_cleanup c j =
      (j.document_id == document.id) && is_unresolved j.status && text_eq j.collection_name c

  abbrev done_build : Text → ReindexJob → Bool
  done_build c j =
      ((j.document_id == document.id) && is_built j.status) && text_eq j.target_collection_name c

  is_empty-nil : (t : Text) → is_empty t ≡ true → t ≡ []
  is_empty-nil [] e = refl
  is_empty-nil (c ∷ cs) e = absurd (cc)

  -- the collection served so far is the new one, or has a cleanup job
  source-kept :
      (c : Text)
      → c ≢ []
      → text_eq job.source_collection_name c ≡ true
      → text_eq target.collection_name c || any (open_cleanup c) (cleanup_of env job) ≡ true
  unfolding cleanup_of
  source-kept c ne same =
      elim (Bool-cases (text_eq job.source_collection_name job.target_collection_name)) [
        | inl e ↦
            rw
              ((text_eq_iff target.collection_name c).1 (
                named
                ∙ sym ((text_eq_iff job.source_collection_name job.target_collection_name).0 e)
                ∙ (text_eq_iff job.source_collection_name c).0 same))
              refl
        | inr e ↦ elim (Bool-cases (is_empty job.source_collection_name)) [
          | inl f ↦ absurd (
              ne (
                sym ((text_eq_iff job.source_collection_name c).0 same)
                ∙ is_empty-nil job.source_collection_name f))
          | inr f ↦
              let mine = ap (λ i. i == document.id) (sym owner) ∙ ==-refl document.id in
              rw (f, cleanup_of) (rw (e, cleanup_of) (ground (arith, mine, same)))
        ]
      ]

  -- A collection that is tracked stays tracked, and the new one is.
  pub switched-tracks :
      (c : Text)
      → c ≢ []
      → is_tracked db document c ≡ true
      → is_tracked (switched env db job document target) (serve env target document) c ≡ true
  unfolding switched
  switched-tracks c ne h =
      let before : in_list c (job.source_collection_name ∷ [])
            || any (open_cleanup c) db.cleanup_jobs
            || any (done_build c) db.reindex_jobs
          ≡ true =
        ap
          (λ x.
            in_list c (current_collection x)
            || any (open_cleanup c) db.cleanup_jobs
            || any (done_build c) db.reindex_jobs)
          (sym serves)
        ∙ h in
      let cleanups = any-append (open_cleanup c) db.cleanup_jobs (cleanup_of env job) in
      let builds = any-update_row job.id (stamp env) (done_build c) db.reindex_jobs (λ y. refl) in
      rw cleanups (rw builds (ground (arith, before, source-kept c ne)))
