-- ===== src/Rag/Retrieval/Outcomes.antt =====
-- What app/rag/retrieval_service.py searches with and hands out.
use documents_rag.Base.{
  ℕ, ◌≡◌, ◌⊎◌, inl, inr, refl, ap, sym, Bool, true, false, ◌&&◌, ◌==◌, List, [], ◌∷◌, Option, none,
  some, Result, ok, err, Text, select, all, arith, length, if_holds,
}
use documents_rag.Indexing.Config.{EmbeddingIndexConfig, collection_name, is_blank}
use documents_rag.Indexing.Settings.{get_active_embedding_config}
use documents_rag.Rag.Embeddings.{
  EmbeddingError, validate_embeddings, passes-validate_embeddings, passes, fits_dimension,
}
use documents_rag.Rag.PromptBuilder.{VectorSearchResult}
use documents_rag.Rag.Retrieval.{
  RetrievalError, RetrievalSettings, Providers, above, searched, first_vector, search_with,
  embedded, retrieve_in, retrieve, limit_or,
}

module _ {Score : Type 0} (settings : RetrievalSettings Score) (providers : Providers Score) where
  abbrev pub meets : Option Score → VectorSearchResult Score → Bool
  meets none r = true
  meets (some threshold) r = providers.at_least r.score threshold

  -- how results were found
  pub record IsRetrieved (query : Text) (limit : ℕ) (results : List (VectorSearchResult Score))
      (config : EmbeddingIndexConfig) (vectors : List (List Score))
      (found : List (VectorSearchResult Score)) : Type 0 where
    pub active : get_active_embedding_config settings.index ≡ some config
    pub query_vectors : providers.embed (query ∷ []) ≡ ok vectors
    pub one_vector : (length vectors == 1) && all (fits_dimension config.dimension) vectors ≡ true
    pub search :
        providers.search_similar
          (collection_name config)
          (first_vector settings providers vectors)
          limit
        ≡ ok found
    pub kept : results ≡ select (meets settings.retrieval_score_threshold) found
    pub good_enough : all (meets settings.retrieval_score_threshold) results ≡ true

  -- the vectors of the query under the active configuration, and whether they are one that fits
  pub record IsEmbedded (query : Text) (config : EmbeddingIndexConfig) (vectors : List (List Score))
      (fits : Bool) : Type 0 where
    pub active : get_active_embedding_config settings.index ≡ some config
    pub query_vectors : providers.embed (query ∷ []) ≡ ok vectors
    pub fit_iff : (length vectors == 1) && all (fits_dimension config.dimension) vectors ≡ fits

  abbrev pub searches :
      EmbeddingIndexConfig → List (List Score) → ℕ → Result Text (List (VectorSearchResult Score))
  searches config vectors limit =
      providers.search_similar (collection_name config) (first_vector settings providers vectors)
        limit

  abbrev pub Retrieves : Text → ℕ → Result RetrievalError (List (VectorSearchResult Score)) → Type 0
  Retrieves query limit (ok results) =
      (config : EmbeddingIndexConfig) × (vectors : List (List Score)) × (found : List
        (VectorSearchResult Score))
      × IsRetrieved query limit results config vectors found
  Retrieves query limit (err RetrievalError.empty_query) = is_blank query ≡ true
  Retrieves query limit (err RetrievalError.invalid_embedding_config) =
      get_active_embedding_config settings.index ≡ none
  Retrieves query limit (err (RetrievalError.invalid_embedding e)) =
      (config : EmbeddingIndexConfig) × (vectors : List (List Score)) × IsEmbedded query config
        vectors false
  Retrieves query limit (err (RetrievalError.provider_failed e)) =
      (config : EmbeddingIndexConfig) × (get_active_embedding_config settings.index ≡ some config)
      × ((providers.embed (query ∷ []) ≡ err e)
          ⊎ ((vectors : List (List Score)) × IsEmbedded query config vectors true
              × (searches config vectors limit ≡ err e)))

  all-select :
      (p : VectorSearchResult Score → Bool) (rs : List (VectorSearchResult Score))
      → all p (select p rs) ≡ true
  all-select p [] = refl
  all-select p (r ∷ rs) = ground (arith, all-select p rs)

  select-All : (rs : List (VectorSearchResult Score)) → select (λ r. true) rs ≡ rs
  select-All [] = refl
  select-All (r ∷ rs) = ap (λ l. r ∷ l) (select-All rs)

  above-select :
      (threshold : Option Score) (rs : List (VectorSearchResult Score))
      → above settings providers threshold rs ≡ select (meets threshold) rs
  above-select none rs = sym (select-All rs)
  above-select (some t) rs = refl

  module _ (query : Text) (limit : ℕ) (config : EmbeddingIndexConfig)
      (active : get_active_embedding_config settings.index ≡ some config) where
    searched_result :
        (vectors : List (List Score)) (r : Result Text (List (VectorSearchResult Score)))
        → providers.embed (query ∷ []) ≡ ok vectors
        → (length vectors == 1) && all (fits_dimension config.dimension) vectors ≡ true
        → providers.search_similar
            (collection_name config)
            (first_vector settings providers vectors)
            limit
          ≡ r
        → Retrieves query limit (searched settings providers r)
    searched_result vectors (err e) h v s = (
      config,
      active,
      inr (vectors, record { active = active; query_vectors = h; fit_iff = v }, s),
    )
    searched_result vectors (ok found) h v s =
        let t = settings.retrieval_score_threshold in
        (
          config,
          vectors,
          found,
          record {
            active = active;
            query_vectors = h;
            one_vector = v;
            search = s;
            kept = above-select t found;
            good_enough = rw (above-select t found) (all-select (meets t) found);
          },
        )

    validated_result :
        (vectors : List (List Score)) (checked : Option EmbeddingError)
        → providers.embed (query ∷ []) ≡ ok vectors
        → passes checked ≡ (length vectors == 1) && all (fits_dimension config.dimension) vectors
        → Retrieves query limit (search_with settings providers config limit vectors checked)
    validated_result vectors (some e) h v =
        (config, vectors, record { active = active; query_vectors = h; fit_iff = sym v })
    validated_result vectors none h v = searched_result vectors _ h (sym v) refl

    embedded_result :
        (r : Result Text (List (List Score)))
        → providers.embed (query ∷ []) ≡ r
        → Retrieves query limit (embedded settings providers config limit r)
    embedded_result (err e) h = (config, active, inl h)
    embedded_result (ok vectors) h =
        validated_result vectors (validate_embeddings vectors 1 config.dimension) h
          (passes-validate_embeddings vectors 1 config.dimension)

  configured_result :
      (query : Text) (limit : ℕ) (config : Option EmbeddingIndexConfig)
      → get_active_embedding_config settings.index ≡ config
      → Retrieves query limit (retrieve_in settings providers query limit config)
  configured_result query limit none h = h
  configured_result query limit (some config) h =
      embedded_result query limit config h (providers.embed (query ∷ [])) refl

  -- A retrieval that succeeds has embedded the query to exactly one vector of the active
  -- configuration's dimension, searched the active collection with it, and hands out in their order
  -- exactly the found results that reach the score threshold, if one is set. It raises an empty
  -- query only for a blank one, an embedding error only for vectors that do not fit the active
  -- configuration, and a provider's error only if the embedding or the search raised it.
  pub retrieve-Retrieves :
      (query : Text) (limit : Option ℕ)
      → Retrieves query
          (limit_or limit settings.retrieval_top_k)
          (retrieve settings providers query limit)
  unfolding retrieve
  retrieve-Retrieves query limit =
      let n = limit_or limit settings.retrieval_top_k in
      if_holds (Retrieves query n) (is_blank query) (err RetrievalError.empty_query)
        (retrieve_in settings providers query n (get_active_embedding_config settings.index))
        (λ e. e) (λ e. configured_result query n (get_active_embedding_config settings.index) refl)
