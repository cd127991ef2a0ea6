-- ===== src/Documents/Chunker/Chunks.antt =====
-- The chunks of a text, described without the loop.
use documents_rag.Base.{
  ℕ, ◌+◌, ◌≤◌, ◌<◌, ◌≡◌, refl, sym, ap, ◌∙◌, ◌⊎◌, inl, inr, true, ltb, List, [], ◌∷◌, ◌++◌, Text,
  length, arith, if_holds,
}
use mathlib.Core.Path.{subst}
use documents_rag.Documents.Chunker.{
  DocumentChunker, join_space, added_length, take_overlap, is_nonempty, split_loop,
}
use documents_rag.Documents.Chunker.Words.{append_assoc, append_nil, join_space-snoc}

-- The chunk's text is within the size, or the chunk adds one word to what it carries over.
abbrev pub Within : ℕ → List Text → List Text → Type 0
Within size carried fresh =
    (length (join_space (carried ++ fresh)) ≤ size) ⊎ ((w : Text) × (fresh ≡ w ∷ []))

-- `Chunked c carried words chunks`: the chunks spell the words, each word fresh in exactly one of
-- them; the first chunk starts with `carried`, each later one with the overlap of the one before;
-- and a chunk ends only where its next word does not fit.
pub data Chunked (c : DocumentChunker) : List Text → List Text → List (List Text) → Type 0 where
  no_words : Chunked c [] [] []
  last_chunk :
      (carried : List Text) (f : Text) (fresh : List Text)
      → Within c.chunk_size carried (f ∷ fresh)
      → Chunked c carried (f ∷ fresh) ((carried ++ f ∷ fresh) ∷ [])
  next_chunk :
      (carried : List Text) (f : Text) (fresh : List Text) (w : Text) (rest : List Text)
      (chunks : List (List Text))
      → Within c.chunk_size carried (f ∷ fresh)
      → c.chunk_size
        < length (join_space (carried ++ f ∷ fresh)) + added_length w (carried ++ f ∷ fresh)
      → Chunked c (take_overlap c.chunk_overlap (carried ++ f ∷ fresh)) (w ∷ rest) chunks
      → Chunked c carried ((f ∷ fresh) ++ w ∷ rest) ((carried ++ f ∷ fresh) ∷ chunks)

append-is_nonempty :
    (xs : List Text) (f : Text) (fs : List Text) → is_nonempty (xs ++ f ∷ fs) ≡ true
append-is_nonempty [] f fs = refl
append-is_nonempty (x ∷ xs) f fs = refl

module _ (c : DocumentChunker) where
  split_loop-going :
      (words carried : List Text) (f : Text) (fresh : List Text) (len : ℕ)
      → len ≡ length (join_space (carried ++ f ∷ fresh))
      → Within c.chunk_size carried (f ∷ fresh)
      → Chunked c carried ((f ∷ fresh) ++ words) (split_loop c words (carried ++ f ∷ fresh) len)
  unfolding split_loop
  split_loop-going [] carried f fresh len e h = rw (append-is_nonempty carried f fresh) (
      subst (λ x. Chunked c carried x ((carried ++ f ∷ fresh) ∷ [])) (sym (append_nil (f ∷ fresh)))
        (last_chunk carried f fresh h))
  split_loop-going (w ∷ words) carried f fresh len e h = rw (append-is_nonempty carried f fresh) (
      if_holds (Chunked c carried ((f ∷ fresh) ++ w ∷ words))
        (ltb c.chunk_size (len + added_length w current))
        (current
          ∷ split_loop c words (overlap ++ w ∷ [])
              (length (join_space overlap) + added_length w overlap))
        (split_loop c words (current ++ w ∷ []) (len + added_length w current))
        (λ b. next_chunk carried f fresh w words _ h (ground (arith, b)) (
          split_loop-going words overlap w [] (length (join_space overlap) + added_length w overlap)
            (sym (join_space-snoc overlap w)) (inr (w, refl))))
        (λ b.
          subst (λ x. Chunked c carried x (split_loop c words (current ++ w ∷ []) longer))
            (append_assoc (f ∷ fresh) (w ∷ []) words)
            (subst
              (λ x.
                Chunked c carried (((f ∷ fresh) ++ w ∷ []) ++ words) (split_loop c words x longer))
              (sym regroup)
              (split_loop-going words carried f (fresh ++ w ∷ []) longer measured
                (inl (ground (arith, b, measured)))))))
    where
      current : List Text
      current = carried ++ f ∷ fresh

      longer : ℕ
      longer = len + added_length w current

      regroup : current ++ w ∷ [] ≡ carried ++ f ∷ (fresh ++ w ∷ [])
      regroup = append_assoc carried (f ∷ fresh) (w ∷ [])

      measured : longer ≡ length (join_space (carried ++ f ∷ (fresh ++ w ∷ [])))
      measured =
          ap (λ n. n + added_length w current) e
          ∙ sym (join_space-snoc current w)
          ∙ ap (λ x. length (join_space x)) regroup

      overlap : List Text
      overlap = take_overlap c.chunk_overlap current

  -- The word lists that the splitting loop appends are a chunking of the text's words: every word
  -- is fresh in exactly one chunk, in order; each chunk after the first starts with the overlap of
  -- the one before; a chunk is longer than the chunk size only if it adds a single word to its
  -- overlap; and a chunk ends only where the next word does not fit.
  pub split_loop-Chunked : (words : List Text) → Chunked c [] words (split_loop c words [] 0)
  unfolding split_loop join_space
  split_loop-Chunked [] = no_words
  split_loop-Chunked (w ∷ words) =
      split_loop-going words [] w [] (0 + length w) (sym (join_space-snoc [] w)) (inr (w, refl))
