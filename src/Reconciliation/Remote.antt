-- ===== src/Reconciliation/Remote.antt =====
-- app/services/reconciliation/document_audit_service.py: the checks of the object storage and of
-- the vector store. What a check raises becomes a warning, never a missing resource.
use documents_rag.Base.{
  ℕ, ltb, Bool, true, false, List, [], ◌∷◌, ◌++◌, Option, none, some, Result, ok, err, Text, codes,
  if◌then◌else◌,
}
use documents_rag.External.{VectorStore, StorageError, QdrantVectorStoreError}
use documents_rag.Reconciliation.Findings.{
  FindingSeverity, DocumentLifecycleFinding, StorageLifecycleState, VectorLifecycleState,
  object_missing, storage_inspection_unavailable, active_collection_missing, active_vectors_missing,
  vector_inspection_unavailable,
}

unfoldable pub storage_unavailable_message : Text
storage_unavailable_message =
    codes "Object Storage could not be inspected; this is not proof the object is absent."

unfoldable pub vector_unavailable_message : Text
vector_unavailable_message =
    codes "Qdrant could not be inspected; this is not proof the collection/vectors are absent."

abbrev pub storage_unreachable : DocumentLifecycleFinding
storage_unreachable = record {
  code = storage_inspection_unavailable;
  severity = FindingSeverity.warning;
  summary = codes "Object Storage could not be inspected.";
  expected_state = codes "Object Storage is reachable.";
  actual_state = storage_unavailable_message;
  suggested_action = codes "Retry the audit once Object Storage is reachable.";
  destructive_risk = false;
}

abbrev pub object_absent : DocumentLifecycleFinding
object_absent = record {
  code = object_missing;
  severity = FindingSeverity.error;
  summary = codes "The document's original object is missing from Object Storage.";
  expected_state = codes "An object exists at the document's persisted storage key.";
  actual_state = codes "No object was found at that key.";
  suggested_action = codes "Inspect manually; this audit never deletes or restores objects.";
  destructive_risk = false;
}

abbrev pub vectors_unreachable : DocumentLifecycleFinding
vectors_unreachable = record {
  code = vector_inspection_unavailable;
  severity = FindingSeverity.warning;
  summary = codes "Qdrant could not be inspected.";
  expected_state = codes "Qdrant is reachable.";
  actual_state = vector_unavailable_message;
  suggested_action = codes "Retry the audit once Qdrant is reachable.";
  destructive_risk = false;
}

abbrev pub vectors_absent : DocumentLifecycleFinding
vectors_absent = record {
  code = active_vectors_missing;
  severity = FindingSeverity.error;
  summary = codes "No vectors exist for this document in its active collection.";
  expected_state = codes "At least one vector exists for this document.";
  actual_state = codes "Zero vectors were found.";
  suggested_action =
      codes "Inspect manually; this document cannot currently "
      ++ codes "be retrieved despite claiming an active index.";
  destructive_risk = false;
}

abbrev pub StorageCheck : Type 0
StorageCheck = Option StorageLifecycleState × List DocumentLifecycleFinding

unfoldable pub storage_check : Result StorageError Bool → StorageCheck
storage_check (err e) =
    (some (record { inspected = false; exists = none }), storage_unreachable ∷ [])
storage_check (ok object_exists) = (
  some (record { inspected = true; exists = some object_exists }),
  if object_exists then [] else object_absent ∷ [],
)

abbrev pub VectorCheck : Type 0
VectorCheck = Option VectorLifecycleState × List DocumentLifecycleFinding

-- what `count_document_vectors` returns or raises
unfoldable pub count_check : Result QdrantVectorStoreError ℕ → VectorCheck
count_check (err e) = (
  some (record {
    inspected = false;
    collection_exists = some true;
    has_vectors = none;
    vector_count = none;
  }),
  vectors_unreachable ∷ [],
)
count_check (ok vector_count) = (
  some (record {
    inspected = true;
    collection_exists = some true;
    has_vectors = some (ltb 0 vector_count);
    vector_count = some vector_count;
  }),
  if ltb 0 vector_count then [] else vectors_absent ∷ [],
)

module _ (repr : Text → Text) (store : VectorStore) where
  abbrev pub collection_absent : Text → DocumentLifecycleFinding
  collection_absent collection_name = record {
    code = active_collection_missing;
    severity = FindingSeverity.error;
    summary = codes "The document's active collection does not exist in Qdrant.";
    expected_state = codes "Collection " ++ (repr collection_name ++ codes " exists.");
    actual_state = codes "No such collection was found.";
    suggested_action =
        codes "Inspect manually; this document cannot currently serve "
        ++ codes "retrieval from its claimed active collection.";
    destructive_risk = false;
  }

  unfoldable pub size_check :
      store.State → Text → ℕ → Result QdrantVectorStoreError (Option ℕ) → VectorCheck
  unfolding count_check
  size_check v collection_name document_id (err e) = (
    some (record {
      inspected = false;
      collection_exists = none;
      has_vectors = none;
      vector_count = none;
    }),
    vectors_unreachable ∷ [],
  )
  size_check v collection_name document_id (ok none) = (
    some (record {
      inspected = true;
      collection_exists = some false;
      has_vectors = none;
      vector_count = none;
    }),
    collection_absent collection_name ∷ [],
  )
  size_check v collection_name document_id (ok (some size)) =
      count_check (store.count_document_vectors collection_name document_id v)

  unfoldable pub vector_check : store.State → ℕ → Option Text → VectorCheck
  unfolding size_check
  vector_check v document_id none = (none, [])
  vector_check v document_id (some collection_name) =
      size_check v collection_name document_id (store.get_collection_vector_size collection_name v)
