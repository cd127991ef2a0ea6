-- ===== src/Documents/Deletion/Worker/Outcomes.antt =====
-- What a finished deletion has removed.
use documents_rag.Base.{
  ℕ, ◌≡◌, refl, sym, ap, ◌∙◌, Bool, true, false, Option, none, some, ok, Text, if_holds,
}
use mathlib.Core.Path.{subst}
use documents_rag.Db.{Db, DbError, commit}
use documents_rag.Db.Env.{Env}
use documents_rag.Db.Models.{
  Document, DocumentDeletionJob, DocumentDeletionStatus, document_key, deletion_key,
}
use documents_rag.Db.Lookup.{get-id, get-update_row, commit-final}
use documents_rag.Db.Rows.{get}
use documents_rag.Storage.Keys.{resolve_document_storage_key}
use documents_rag.External.{VectorStore, FileStorage, StorageRaised, translated, untranslated}
use documents_rag.Indexing.Vectors.{
  VectorDeletionResult, fully_deleted, delete_all_tracked_document_vectors,
}
use documents_rag.Indexing.Vectors.Outcomes.{
  is_tracked, delete_all_tracked_document_vectors-removes,
}
use documents_rag.Documents.Deletion.Worker.{
  claim_next_deletion, set_status, fail, vectors_done, complete, write_deletion, release_hash,
  Round, commit_and_return, after_storage, delete_object, after_vectors, run_deletion,
  run_claimed_deletion, run_claim, process_next_deletion, DeletionErrorCode, vector_failure_message,
  not_found_message,
}

module _ (store : VectorStore) (files : FileStorage) where
  returned :
      (job : DocumentDeletionJob) (saved : Db × Option DbError) (v : store.State) (f : files.State)
      (done : DocumentDeletionJob)
      → (commit_and_return store files (some job) saved v f).3 ≡ ok (some done)
      → (commit_and_return store files (some job) saved v f ≡ (saved.0, v, f, ok (some job)))
        × (saved.1 ≡ none)
        × (job ≡ done)
  returned job (db, none) v f done h = (refl, refl, cc)
  returned job (db, some e) v f done h = absurd (cc)

  -- The document's vectors are out of every tracked collection, its object is out of the storage,
  -- and its content hash is free again.
  abbrev pub Erased : Db → Document → Round store files → Type 0
  Erased db document r =
      ((c : Text) → is_tracked db document c ≡ true → store.holds r.1 c document.id ≡ false)
      × (files.holds r.2 (resolve_document_storage_key document) ≡ false)
      × (get document.id r.0.documents ≡ some (record document { content_hash = none }))

  abbrev pub Completes : DocumentDeletionJob → Round store files → Type 0
  Completes done r = (r.3 ≡ ok (some done)) × (done.status ≡ DocumentDeletionStatus.completed)

  module _ (env : Env) (document : Document) (done : DocumentDeletionJob) (f : files.State)
      (origin : Db) where
    after_storage-erases :
        (job : DocumentDeletionJob) (db : Db) (v : store.State)
        → get document.id db.documents ≡ some document
        → ((c : Text) → is_tracked origin document c ≡ true → store.holds v c document.id ≡ false)
        → (raised : files.State × Option StorageRaised)
        → files.delete (resolve_document_storage_key document) f ≡ raised
        → Completes done (after_storage store files env document job db v raised)
        → Erased origin document (after_storage store files env document job db v raised)
    unfolding after_storage
    after_storage-erases job db v there clean (f', none) e (h, c) =
        let after = release_hash document.id (write_deletion job.id (complete env) db) in
        let (same, saved, _) = returned (complete env job) (commit db after) v f' done h in
        subst (Erased origin document) (sym same) (
          clean,
          subst (λ x. files.holds x (resolve_document_storage_key document) ≡ false)
              (ap (λ (x : files.State × Option StorageRaised). x.0) e)
              (files.delete-removes (resolve_document_storage_key document) f
                (ap (λ (x : files.State × Option StorageRaised). x.1) e)),
          rw (commit-final db after saved) (
              get-update_row document.id (λ (d : Document). record d { content_hash = none })
                db.documents document (λ y. refl) there),
        )
    after_storage-erases job db v there clean (f', some (translated x)) e (h, c) =
        let failed = fail env DeletionErrorCode.document_storage_cleanup_failed x in
        let (_, _, last) =
          returned (failed job) (commit db (write_deletion job.id failed db)) v f' done h in
        absurd (cc)
    after_storage-erases job db v there clean (f', some (untranslated x)) e (h, c) = absurd (cc)

    delete_object-erases :
        (job : DocumentDeletionJob) (saved : Db × Option DbError) (v : store.State)
        → (saved.1 ≡ none → get document.id saved.0.documents ≡ some document)
        → ((c : Text) → is_tracked origin document c ≡ true → store.holds v c document.id ≡ false)
        → Completes done (delete_object store files env document job saved v f)
        → Erased origin document (delete_object store files env document job saved v f)
    unfolding delete_object
    delete_object-erases job (db, some e) v there clean h = absurd (cc)
    delete_object-erases job (db, none) v there clean h =
        after_storage-erases job db v (there refl) clean
          (files.delete (resolve_document_storage_key document) f) refl h

    after_vectors-erases :
        (job : DocumentDeletionJob) (db : Db) (deleted : store.State × VectorDeletionResult)
        → get document.id db.documents ≡ some document
        → (fully_deleted deleted.1 ≡ true
            → (c : Text) → is_tracked origin document c ≡ true
            → store.holds deleted.0 c document.id ≡ false)
        → Completes done (after_vectors store files env document job db deleted f)
        → Erased origin document (after_vectors store files env document job db deleted f)
    unfolding after_vectors
    after_vectors-erases job db (v, result) there clean =
        let failed =
          fail env DeletionErrorCode.document_vector_cleanup_failed
            (vector_failure_message result) in
        let cleaned = write_deletion job.id (vectors_done env) db in
        if_holds (λ r. Completes done r → Erased origin document r) (fully_deleted result)
          (delete_object store files env document (vectors_done env job) (commit db cleaned) v f)
          (commit_and_return store files (some (failed job))
            (commit db (write_deletion job.id failed db)) v f)
          (λ all_gone.
            delete_object-erases (vectors_done env job) (commit db cleaned) v
              (λ saved. rw (commit-final db cleaned saved) there) (clean all_gone))
          (λ not_all (h, c).
            let (_, _, last) =
              returned (failed job) (commit db (write_deletion job.id failed db)) v f done h in
            absurd (cc))

  module _ (env : Env) (locked : ℕ → Bool) (db : Db) (v : store.State) (f : files.State)
      (done : DocumentDeletionJob) where
    run_deletion-erases :
        (job : DocumentDeletionJob) (now : Db) (found : Option Document)
        → get job.document_id now.documents ≡ found
        → Completes done (run_deletion store files env job now found v f)
        → (document : Document) × (get job.document_id now.documents ≡ some document)
          × Erased now document (run_deletion store files env job now found v f)
    unfolding run_deletion
    run_deletion-erases job now none e (h, c) =
        let failed =
          fail env DeletionErrorCode.document_vector_cleanup_failed
            (not_found_message env job.document_id) in
        let (_, _, last) =
          returned (failed job) (commit now (write_deletion job.id failed now)) v f done h in
        absurd (cc)
    run_deletion-erases job now (some document) e h = (
      document,
      e,
      after_vectors-erases env document done f now job now
          (delete_all_tracked_document_vectors store now document v)
          (ap (λ i. get i now.documents) (get-id job.document_id now.documents document e) ∙ e)
          (λ gone c. delete_all_tracked_document_vectors-removes store now document v c gone) h,
    )

    -- The round worked on this document of the claimed job, and erased it.
    abbrev pub ErasedClaimed : Round store files → Type 0
    ErasedClaimed r =
        (job : DocumentDeletionJob) × (claim_next_deletion locked db ≡ some job)
        × (document : Document) × (get job.document_id db.documents ≡ some document)
        × Erased db document r

    abbrev start : DocumentDeletionJob → DocumentDeletionJob
    start = set_status env DocumentDeletionStatus.processing

    abbrev work : DocumentDeletionJob → Db → Round store files
    work job now =
        run_deletion store files env (start job) now (get job.document_id now.documents) v f

    run_claimed_deletion-erases :
        (job : DocumentDeletionJob) (saved : Db × Option DbError)
        → claim_next_deletion locked db ≡ some job
        → (saved.1 ≡ none → saved.0 ≡ write_deletion job.id start db)
        → Completes done (run_claimed_deletion store files env (start job) saved v f)
        → ErasedClaimed (run_claimed_deletion store files env (start job) saved v f)
    unfolding run_claimed_deletion
    run_claimed_deletion-erases job (now, some e) claim same h = absurd (cc)
    run_claimed_deletion-erases job (now, none) claim same h =
        subst (λ n. Completes done (work job n) → ErasedClaimed (work job n)) (sym (same refl))
          (λ h'.
            let written = write_deletion job.id start db in
            let (document, found, gone) =
              run_deletion-erases (start job) written (get job.document_id db.documents) refl h' in
            (job, claim, document, found, gone))
          h

    run_claim-erases :
        (claim : Option DocumentDeletionJob)
        → claim_next_deletion locked db ≡ claim
        → Completes done (run_claim store files env db claim v f)
        → ErasedClaimed (run_claim store files env db claim v f)
    unfolding run_claim
    run_claim-erases none e (h, c) = absurd (cc)
    run_claim-erases (some job) e h =
        run_claimed_deletion-erases job (commit db (write_deletion job.id start db)) e
          (commit-final db (write_deletion job.id start db)) h

    -- A round that returns a completed deletion had claimed a job whose document exists, and has
    -- erased that document: no collection that was tracked for it when the round began holds its
    -- vectors, the storage holds nothing at its key, and its row has lost its content hash.
    pub process_next_deletion-erases :
        Completes done (process_next_deletion store files env locked db v f)
        → ErasedClaimed (process_next_deletion store files env locked db v f)
    unfolding process_next_deletion
    process_next_deletion-erases h = run_claim-erases (claim_next_deletion locked db) refl h
