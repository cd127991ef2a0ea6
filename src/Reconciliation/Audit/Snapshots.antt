-- ===== src/Reconciliation/Audit/Snapshots.antt =====
-- What an audit of app/services/reconciliation/document_audit_service.py shows of the two stores.
use documents_rag.Base.{
  ℕ, ◌≡◌, refl, Bool, true, false, Option, none, some, Result, ok, err, Text, is_some, not, ◌&&◌,
  ◌||◌, ap, sym,
}
use documents_rag.Db.{Db}
use documents_rag.Db.Env.{Env}
use documents_rag.Db.Models.{Document, document_key, deletion_row}
use documents_rag.Db.Rows.{get, latest_for}
use documents_rag.External.{VectorStore, FileStorage, StorageError}
use documents_rag.Reconciliation.Audit.{audit_document_lifecycle, check_storage, check_vectors}
use documents_rag.Reconciliation.Audit.Outcomes.{answered}
use documents_rag.Reconciliation.Findings.{
  StorageLifecycleState, VectorLifecycleState, DocumentLifecycleAuditResult,
}
use documents_rag.Reconciliation.Lifecycle.{is_deleted}
use documents_rag.Reconciliation.Remote.{storage_check, count_check, size_check, vector_check}
use documents_rag.Storage.Keys.{resolve_document_storage_key}

-- what is shown of a fact: nothing, or the truth
abbrev pub Tells : Bool → Option Bool → Type 0
Tells fact none = Unit {0}
Tells fact (some shown) = shown ≡ fact

abbrev pub TellsCount : Result Text ℕ → Option ℕ → Type 0
TellsCount counted none = Unit {0}
TellsCount counted (some n) = counted ≡ ok n

-- whether there is a collection is shown exactly if the store answers for it
abbrev pub TellsCollection : Result Text (Option ℕ) → Option Bool → Type 0
TellsCollection (err e) shown = shown ≡ none
TellsCollection (ok size) shown = shown ≡ some (is_some size)

abbrev pub is_yes : Option Bool → Bool
is_yes none = false
is_yes (some b) = b

module _ (store : VectorStore) (files : FileStorage) where
  pub record ShowsObject (document : Document) (f : files.State) (s : StorageLifecycleState)
      : Type 0 where
    pub inspected_iff :
        s.inspected ≡ answered (files.exists (resolve_document_storage_key document) f)
    pub shown_iff : is_some s.exists ≡ s.inspected
    pub object_told : Tells (files.holds f (resolve_document_storage_key document)) s.exists

  pub record ShowsVectors (v : store.State) (d : ℕ) (c : Text) (s : VectorLifecycleState)
      : Type 0 where
    pub inspected_iff :
        s.inspected
        ≡ answered (store.get_collection_vector_size c v)
          && (not (is_yes s.collection_exists) || answered (store.count_document_vectors c d v))
    pub collection_told : TellsCollection (store.get_collection_vector_size c v) s.collection_exists
    pub vectors_shown_iff : is_some s.has_vectors ≡ s.inspected && is_yes s.collection_exists
    pub count_shown_iff : is_some s.vector_count ≡ is_some s.has_vectors
    pub vectors_told : Tells (store.holds v c d) s.has_vectors
    pub count_told : TellsCount (store.count_document_vectors c d v) s.vector_count

  abbrev pub Object : Bool → Document → files.State → Option StorageLifecycleState → Type 0
  Object true document f shown = shown ≡ none
  Object false document f none = ⊥
  Object false document f (some s) = ShowsObject document f s

  abbrev pub Vectors : Bool → store.State → ℕ → Option Text → Option VectorLifecycleState → Type 0
  Vectors true v d c shown = shown ≡ none
  Vectors false v d none shown = shown ≡ none
  Vectors false v d (some c) none = ⊥
  Vectors false v d (some c) (some s) = ShowsVectors v d c s

  abbrev pub Snapshots :
      Db → files.State → store.State → ℕ → Document → DocumentLifecycleAuditResult → Type 0
  Snapshots db f v document_id document result =
      let deleted = is_deleted (latest_for document_id db.deletion_jobs) in
      Object deleted document f result.storage_state
      × Vectors deleted v document.id document.collection_name result.vector_state

module _ (repr : Text → Text) (store : VectorStore) (files : FileStorage) where
  storage_check-Object :
      (document : Document) (f : files.State) (r : Result StorageError Bool)
      → files.exists (resolve_document_storage_key document) f ≡ r
      → Object store files false document f (storage_check r).0
  unfolding storage_check
  storage_check-Object document f (err e) h = record {
    inspected_iff = ap answered (sym h);
    shown_iff = refl;
    object_told = tt;
  }
  storage_check-Object document f (ok b) h = record {
    inspected_iff = ap answered (sym h);
    shown_iff = refl;
    object_told = sym (files.exists-holds (resolve_document_storage_key document) f b h);
  }

  count_check-Vectors :
      (v : store.State) (d : ℕ) (c : Text) (size : ℕ) (r : Result Text ℕ)
      → store.get_collection_vector_size c v ≡ ok (some size)
      → store.count_document_vectors c d v ≡ r
      → Vectors store files false v d (some c) (count_check r).0
  unfolding count_check
  count_check-Vectors v d c size (err e) q h = record {
    inspected_iff = rw (q, h) refl;
    collection_told = rw q refl;
    vectors_shown_iff = refl;
    count_shown_iff = refl;
    vectors_told = tt;
    count_told = tt;
  }
  count_check-Vectors v d c size (ok n) q h = record {
    inspected_iff = rw (q, h) refl;
    collection_told = rw q refl;
    vectors_shown_iff = refl;
    count_shown_iff = refl;
    vectors_told = sym (store.count-holds c d v n h);
    count_told = h;
  }

  size_check-Vectors :
      (v : store.State) (d : ℕ) (c : Text) (r : Result Text (Option ℕ))
      → store.get_collection_vector_size c v ≡ r
      → Vectors store files false v d (some c) (size_check repr store v c d r).0
  unfolding size_check
  size_check-Vectors v d c (err e) q = record {
    inspected_iff = rw q refl;
    collection_told = rw q refl;
    vectors_shown_iff = refl;
    count_shown_iff = refl;
    vectors_told = tt;
    count_told = tt;
  }
  size_check-Vectors v d c (ok none) q = record {
    inspected_iff = rw q refl;
    collection_told = rw q refl;
    vectors_shown_iff = refl;
    count_shown_iff = refl;
    vectors_told = tt;
    count_told = tt;
  }
  size_check-Vectors v d c (ok (some n)) q =
      count_check-Vectors v d c n (store.count_document_vectors c d v) q refl

  vector_check-Vectors :
      (v : store.State) (d : ℕ) (c : Option Text)
      → Vectors store files false v d c (vector_check repr store v d c).0
  unfolding vector_check
  vector_check-Vectors v d none = refl
  vector_check-Vectors v d (some c) =
      size_check-Vectors v d c (store.get_collection_vector_size c v) refl

  check_storage-Object :
      (deleted : Bool) (document : Document) (f : files.State)
      → Object store files deleted document f (check_storage repr store files deleted document f).0
  unfolding check_storage
  check_storage-Object true document f = refl
  check_storage-Object false document f =
      storage_check-Object document f (files.exists (resolve_document_storage_key document) f) refl

  check_vectors-Vectors :
      (deleted : Bool) (document : Document) (v : store.State)
      → Vectors store files deleted v document.id document.collection_name
          (check_vectors repr store files deleted document v).0
  unfolding check_vectors
  check_vectors-Vectors true document v = refl
  check_vectors-Vectors false document v =
      vector_check-Vectors v document.id document.collection_name

  -- What the snapshots of an audit show of the two stores is true: whether the object is there,
  -- whether the document's collection exists, whether it holds vectors of the document, and how
  -- many. For a document whose deletion is not completed, the object is left open exactly if the
  -- storage did not answer, the collection exactly if the vector store did not answer for it, and
  -- the vectors unless the collection exists and the store counted in it. There is no snapshot of
  -- the vectors for a document without a collection, and none at all for a deleted document.
  pub audit_document_lifecycle-Snapshots :
      (env : Env) (stale_after_seconds : ℕ) (db : Db) (f : files.State) (v : store.State)
      (document_id : ℕ) (document : Document)
      → get document_id db.documents ≡ some document
      → Snapshots store files db f v document_id document
          (audit_document_lifecycle repr store files env stale_after_seconds db f v document_id)
  unfolding audit_document_lifecycle
  audit_document_lifecycle-Snapshots env n db f v document_id document h =
      let deleted = is_deleted (latest_for document_id db.deletion_jobs) in
      rw h (check_storage-Object deleted document f, check_vectors-Vectors deleted document v)
