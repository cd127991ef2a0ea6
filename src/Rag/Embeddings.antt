-- ===== src/Rag/Embeddings.antt =====
-- app/rag/embedding_validation.py
use documents_rag.Base.{
  ℕ, ◌+◌, ◌≡◌, refl, Bool, true, false, not, ltb, ◌==◌, ◌&&◌, List, [], ◌∷◌, Option, none, some,
  length, all, arith, if◌then◌else◌,
}

-- Which check failed: the numbers of vectors and inputs, or the index and length of a vector.
pub data EmbeddingError : Type 0 where
  count_mismatch : ℕ → ℕ → EmbeddingError
  dimension_mismatch : ℕ → ℕ → EmbeddingError

abbrev pub passes : Option EmbeddingError → Bool
passes none = true
passes (some e) = false

module _ {F : Type 0} where
  abbrev pub fits_dimension : ℕ → List F → Bool
  fits_dimension expected_dimension vector =
      ltb 0 (length vector) && (length vector == expected_dimension)

  -- the first vector that does not fit, counted from `index`
  unfoldable pub first_misfit : ℕ → ℕ → List (List F) → Option EmbeddingError
  first_misfit expected_dimension index [] = none
  first_misfit expected_dimension index (vector ∷ vectors) =
      let later = first_misfit expected_dimension (index + 1) vectors in
      if fits_dimension expected_dimension vector
      then later
      else some (dimension_mismatch index (length vector))

  unfoldable pub validate_embeddings : List (List F) → ℕ → ℕ → Option EmbeddingError
  unfolding first_misfit
  validate_embeddings vectors expected_count expected_dimension =
      if not (length vectors == expected_count)
      then some (count_mismatch (length vectors) expected_count)
      else first_misfit expected_dimension 0 vectors

  first_misfit_none :
      (d index : ℕ) (vectors : List (List F))
      → passes (first_misfit d index vectors) ≡ all (fits_dimension d) vectors
  unfolding first_misfit
  first_misfit_none d index [] = refl
  first_misfit_none d index (v ∷ vs) = ground (arith, first_misfit_none d (index + 1) vs)

  pub passes-validate_embeddings :
      (vectors : List (List F)) (n d : ℕ)
      → passes (validate_embeddings vectors n d)
        ≡ (length vectors == n) && all (fits_dimension d) vectors
  unfolding validate_embeddings
  passes-validate_embeddings vectors n d = ground (arith, first_misfit_none d 0 vectors)
