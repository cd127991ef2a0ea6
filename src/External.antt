-- ===== src/External.antt =====
-- The interfaces behind which the program keeps its vectors and its files: the abstract classes
-- `VectorStore` (app/rag/providers/vector_store.py) and `FileStorage` (app/storage/contract.py).
-- A call threads the remote state; `some text` is the text of the exception that it raises. What
-- an inspection of the vector store raises is taken to be a QdrantVectorStoreError, into which
-- app/rag/providers/qdrant_vector_store.py translates the failures of its requests and malformed
-- answers; what the storage raises on an existence check is taken to be a StorageError, as the
-- contract asks for. A save, a read or a delete of the storage may raise something else.
use documents_rag.Base.{
  ℕ, ◌≡◌, ◌≢◌, ◌⊎◌, Bool, true, false, Option, none, Text, List, Result, ok, ltb,
}

-- the text of a QdrantVectorStoreError
abbrev pub QdrantVectorStoreError : Type 0
QdrantVectorStoreError = Text

pub record VectorStore : Type 1 where
  pub State : Type 0
  -- the vector size of a collection that exists
  pub get_collection_vector_size : Text → State → Result QdrantVectorStoreError (Option ℕ)
  pub create_collection_if_not_exists : Text → ℕ → State → State × Option Text
  pub delete_by_document_id : Text → ℕ → State → State × Option Text
  pub count_document_vectors : Text → ℕ → State → Result QdrantVectorStoreError ℕ
  -- the number of vectors of a collection that exists
  pub count_collection_vectors : Text → State → Result QdrantVectorStoreError (Option ℕ)
  -- the collection holds vectors of the document
  pub holds : State → Text → ℕ → Bool
  -- a count that does not raise is zero exactly when there are none
  pub count-holds :
      (c : Text) (d : ℕ) (s : State) (n : ℕ)
      → count_document_vectors c d s ≡ ok n
      → holds s c d ≡ ltb 0 n
  -- a delete that does not raise has removed the document's vectors
  pub delete-removes :
      (c : Text) (d : ℕ) (s : State)
      → (delete_by_document_id c d s).1 ≡ none
      → holds (delete_by_document_id c d s).0 c d ≡ false
  -- a delete leaves other collections and other documents alone, whether it raises or not
  pub delete-others :
      (c : Text) (d : ℕ) (s : State) (c' : Text) (d' : ℕ)
      → (c' ≢ c) ⊎ (d' ≢ d)
      → holds (delete_by_document_id c d s).0 c' d' ≡ holds s c' d'
  -- a delete adds no vectors anywhere
  pub delete-adds_none :
      (c : Text) (d : ℕ) (s : State) (c' : Text) (d' : ℕ)
      → holds s c' d' ≡ false
      → holds (delete_by_document_id c d s).0 c' d' ≡ false

-- app/storage/errors.py: what an implementation of the storage may raise.
pub data StorageError : Type 0 where
  storage_unavailable object_not_found write_failed read_failed delete_failed : StorageError
  metadata_failed invalid_configuration url_generation_failed unsafe_key : StorageError

-- What a delete raises, with its text: a StorageError, or an exception that an implementation does
-- not translate into one.
pub data StorageRaised : Type 0 where
  translated untranslated : Text → StorageRaised

pub record FileStorage : Type 1 where
  pub State : Type 0
  -- `save(key, content, content_type=...)`: the key and the etag of the stored file
  pub save : Text → List ℕ → Text → State → State × Result Text (Text × Option Text)
  pub delete : Text → State → State × Option StorageRaised
  -- `none` is an exception that is not a StorageError
  pub read : Text → State → Result (Option StorageError) (List ℕ)
  pub exists : Text → State → Result StorageError Bool
  pub holds : State → Text → Bool
  -- a check that does not raise tells whether an object is there
  pub exists-holds : (key : Text) (s : State) (b : Bool) → exists key s ≡ ok b → holds s key ≡ b
  -- a delete that does not raise leaves no object at the key
  pub delete-removes :
      (key : Text) (s : State) → (delete key s).1 ≡ none → holds (delete key s).0 key ≡ false
  -- a save that does not raise leaves an object at the key that it returns
  pub save-holds :
      (key : Text) (content : List ℕ) (content_type : Text) (s : State)
      (stored : Text × Option Text)
      → (save key content content_type s).1 ≡ ok stored
      → holds (save key content content_type s).0 stored.0 ≡ true
