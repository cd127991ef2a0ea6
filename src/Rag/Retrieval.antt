-- ===== src/Rag/Retrieval.antt =====
-- app/rag/retrieval_service.py. The embedding provider and the search of the vector store are
-- functions that may raise; `at_least` compares two floats.
pub mod Outcomes
use documents_rag.Base.{
  ℕ, ◌≡◌, refl, Bool, true, false, not, ◌||◌, List, [], ◌∷◌, Option, none, some, Result, ok, err,
  Text, select, all, any, arith, if◌then◌else◌,
}
use documents_rag.Indexing.Config.{EmbeddingIndexConfig, collection_name, is_blank}
use documents_rag.Indexing.Settings.{Settings, get_active_embedding_config}
use documents_rag.Rag.Embeddings.{EmbeddingError, validate_embeddings}
use documents_rag.Rag.PromptBuilder.{VectorSearchResult}

pub data RetrievalError : Type 0 where
  empty_query invalid_embedding_config : RetrievalError
  invalid_embedding : EmbeddingError → RetrievalError
  -- what a provider raised
  provider_failed : Text → RetrievalError

pub record RetrievalSettings (Score : Type 0) : Type 0 where
  pub index : Settings
  pub retrieval_top_k : ℕ
  pub retrieval_score_threshold : Option Score

pub record Providers (Score : Type 0) : Type 0 where
  pub embed : List Text → Result Text (List (List Score))
  pub search_similar : Text → List Score → ℕ → Result Text (List (VectorSearchResult Score))
  pub at_least : Score → Score → Bool

abbrev pub limit_or : Option ℕ → ℕ → ℕ
limit_or none top_k = top_k
limit_or (some limit) top_k = limit

module _ {Score : Type 0} (settings : RetrievalSettings Score) (providers : Providers Score) where
  open providers use {embed, search_similar, at_least}

  abbrev pub Found : Type 0
  Found = Result RetrievalError (List (VectorSearchResult Score))

  abbrev pub above :
      Option Score → List (VectorSearchResult Score) → List (VectorSearchResult Score)
  above none results = results
  above (some threshold) results =
      select (λ (r : VectorSearchResult Score). at_least r.score threshold) results

  abbrev pub searched : Result Text (List (VectorSearchResult Score)) → Found
  searched (err e) = err (provider_failed e)
  searched (ok results) = ok (above settings.retrieval_score_threshold results)

  -- `query_vectors[0]`, after the check that there is one vector
  abbrev pub first_vector : List (List Score) → List Score
  first_vector [] = []
  first_vector (v ∷ vs) = v

  abbrev pub search_with :
      EmbeddingIndexConfig → ℕ → List (List Score) → Option EmbeddingError → Found
  search_with config limit vectors (some e) = err (invalid_embedding e)
  search_with config limit vectors none =
      searched (search_similar (collection_name config) (first_vector vectors) limit)

  abbrev pub embedded : EmbeddingIndexConfig → ℕ → Result Text (List (List Score)) → Found
  embedded config limit (err e) = err (provider_failed e)
  embedded config limit (ok vectors) =
      search_with config limit vectors (validate_embeddings vectors 1 config.dimension)

  abbrev pub retrieve_in : Text → ℕ → Option EmbeddingIndexConfig → Found
  retrieve_in query limit none = err invalid_embedding_config
  retrieve_in query limit (some config) = embedded config limit (embed (query ∷ []))

  unfoldable pub retrieve : Text → Option ℕ → Found
  retrieve query limit =
      if is_blank query
      then err empty_query
      else retrieve_in query (limit_or limit settings.retrieval_top_k)
          (get_active_embedding_config settings.index)
