-- ===== src/Tests/Chunks.antt =====
-- A short text in chunks of at most seven characters that overlap in at most two.
use documents_rag.Base.{◌≡◌, refl, List, [], ◌∷◌, Text, codes}
use documents_rag.Documents.Chunker.{
  DocumentChunker, take_overlap, split_loop, split_words, split_text, join_space,
}
use documents_rag.Documents.Chunker.Words.{IsOverlap, take_overlap-IsOverlap}
use documents_rag.Documents.Chunker.Chunks.{Chunked, split_loop-Chunked}

abbrev seven : DocumentChunker
seven = record { chunk_size = 7; chunk_overlap = 2 }

abbrev four_words : List Text
four_words = codes "ab" ∷ codes "cd" ∷ codes "ef" ∷ codes "gh" ∷ []

four_words-split : split_words [] (codes "ab  cd ef gh ") ≡ four_words
unfolding split_words
four_words-split = refl

two_chunks :
    split_text seven (codes "ab cd ef gh") ≡ codes "ab cd" ∷ codes "cd ef" ∷ codes "ef gh" ∷ []
unfolding split_text split_words split_loop take_overlap join_space
two_chunks = refl

split_loop-Chunked_example : Chunked seven [] four_words (split_loop seven four_words [] 0)
split_loop-Chunked_example = split_loop-Chunked seven four_words

take_overlap-IsOverlap_example : IsOverlap 5 four_words (take_overlap 5 four_words)
take_overlap-IsOverlap_example = take_overlap-IsOverlap 5 four_words
