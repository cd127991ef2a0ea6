-- ===== src/Indexing/Registry.antt =====
-- app/services/indexing/collection_registry.py
use documents_rag.Base.{
  ℕ, Bool, false, not, ◌==◌, List, [], ◌∷◌, ◌++◌, Option, none, some, Result, ok, err, Text,
  text_eq, select, if◌then◌else◌,
}
use documents_rag.Db.{Db, DbError, commit, same_text}
use documents_rag.Db.Env.{Env}
use documents_rag.Db.Models.{Document, IndexCollection, IndexCollectionStatus}
use documents_rag.External.{VectorStore}
use documents_rag.Indexing.Config.{EmbeddingIndexConfig, collection_name}

-- `session.get(IndexCollection, name)`
unfoldable pub get_collection : Text → List IndexCollection → Option IndexCollection
get_collection name [] = none
get_collection name (c ∷ cs) =
    if text_eq c.collection_name name then some c else get_collection name cs

abbrev pub new_collection : Env → EmbeddingIndexConfig → IndexCollection
new_collection env config = record {
  collection_name = collection_name config;
  embedding_provider = config.provider;
  embedding_model = config.model;
  embedding_dimension = config.dimension;
  embedding_version = config.embedding_version;
  chunking_version = config.chunking_version;
  status = IndexCollectionStatus.active;
  created_at = env.db_now;
}

pub data RegistryError : Type 0 where
  incompatible_index_configuration : RegistryError
  store_error : Text → RegistryError
  db_error : DbError → RegistryError

-- a size that another configuration left
abbrev pub is_incompatible : EmbeddingIndexConfig → Option ℕ → Bool
is_incompatible config none = false
is_incompatible config (some size) = not (size == config.dimension)

abbrev pub saved : Db × Option DbError → Db × Option RegistryError
saved (db, none) = (db, none)
saved (db, some e) = (db, some (RegistryError.db_error e))

-- the row of the collection, inserted and committed if it is missing
unfoldable pub track_collection :
    Env → EmbeddingIndexConfig → Db → Option IndexCollection → Db × Option RegistryError
track_collection env config db (some c) = (db, none)
track_collection env config db none =
    saved (commit db (record db { collections = db.collections ++ new_collection env config ∷ [] }))

module _ (store : VectorStore) where
  open store use {State, get_collection_vector_size, create_collection_if_not_exists}

  abbrev pub after_create :
      Env → EmbeddingIndexConfig → Db → State × Option Text → Db × State × Option RegistryError
  after_create env config db (s, some raised) = (db, s, some (RegistryError.store_error raised))
  after_create env config db (s, none) =
      let (db', raised) =
        track_collection env config db (get_collection (collection_name config) db.collections) in
      (db', s, raised)

  abbrev pub after_size :
      Env
      → EmbeddingIndexConfig
      → Db
      → State
      → Result Text (Option ℕ)
      → Db × State × Option RegistryError
  after_size env config db s (err raised) = (db, s, some (RegistryError.store_error raised))
  after_size env config db s (ok size) =
      if is_incompatible config size
      then (db, s, some RegistryError.incompatible_index_configuration)
      else after_create env config db
          (create_collection_if_not_exists (collection_name config) config.dimension s)

  unfoldable pub ensure_active_collection :
      Env → EmbeddingIndexConfig → Db → State → Db × State × Option RegistryError
  unfolding track_collection get_collection
  ensure_active_collection env config db s =
      after_size env config db s (get_collection_vector_size (collection_name config) s)

unfoldable pub mark_document_indexed : Env → Document → EmbeddingIndexConfig → Document
mark_document_indexed env document config = record document {
  embedding_provider = some config.provider;
  embedding_model = some config.model;
  embedding_dimension = some config.dimension;
  embedding_version = some config.embedding_version;
  chunking_version = some config.chunking_version;
  collection_name = some (collection_name config);
  indexed_at = some env.now;
}

-- `document.collection_name != name`
unfoldable pub is_document_stale : Document → Text → Bool
is_document_stale document active_name = not (same_text document.collection_name (some active_name))

unfoldable pub get_stale_documents : Db → Text → List Document
unfolding is_document_stale
get_stale_documents db active_name =
    select (λ (d : Document). is_document_stale d active_name) db.documents

unfoldable pub retire_rows : Text → List IndexCollection → List IndexCollection
retire_rows name [] = []
retire_rows name (c ∷ cs) =
    let rest = retire_rows name cs in
    if text_eq c.collection_name name
    then record c { status = IndexCollectionStatus.retired } ∷ rest
    else c ∷ rest

unfoldable pub retire_collection : Text → Db → Db × Option DbError
unfolding retire_rows get_collection
retire_collection name db = elim (get_collection name db.collections) [
  | none ↦ (db, none)
  | some c ↦ commit db (record db { collections = retire_rows name db.collections })
]
