-- ===== src/Documents/Chunker.antt =====
-- app/services/documents/chunker.py
pub mod Words
pub mod Chunks
use documents_rag.Base.{
  ℕ, zero, suc, ◌+◌, ltb, leb, ◌==◌, ◌&&◌, ◌||◌, not, Bool, true, false, List, [], ◌∷◌, ◌++◌,
  Option, none, some, Result, ok, err, Text, codes, decimal, length, any, all, select, map, text_eq,
  if◌then◌else◌,
}
use documents_rag.Indexing.Config.{is_space}

-- a page of text_extractor.py
pub record ExtractedPage : Type 0 where
  pub text : Text
  pub page_number : Option ℕ
  pub sheet_name : Option Text

pub record DocumentChunk : Type 0 where
  pub document_id : Text
  pub chunk_id : Text
  pub text : Text
  pub chunk_index : ℕ
  pub page_number : Option ℕ
  pub sheet_name : Option Text

-- what the constructor refuses; a negative overlap is not a number here
pub data ChunkerError : Type 0 where
  chunk_size_not_positive overlap_not_smaller : ChunkerError

pub record DocumentChunker : Type 0 where
  pub chunk_size : ℕ
  pub chunk_overlap : ℕ

unfoldable pub new_chunker : ℕ → ℕ → Result ChunkerError DocumentChunker
new_chunker chunk_size chunk_overlap =
    if chunk_size == 0
    then err chunk_size_not_positive
    else if leb chunk_size chunk_overlap
    then err overlap_not_smaller
    else ok (record { chunk_size = chunk_size; chunk_overlap = chunk_overlap })

abbrev pub finish_word : Text → List Text → List Text
finish_word [] words = words
finish_word (c ∷ cs) words = (c ∷ cs) ∷ words

-- `text.split()`; the word that is being read is carried along
unfoldable pub split_words : Text → Text → List Text
split_words word [] = finish_word word []
split_words word (c ∷ cs) =
    let ended = finish_word word (split_words [] cs) in
    let going = split_words (word ++ c ∷ []) cs in if is_space c then ended else going

-- `" ".join(words)`
unfoldable pub join_space : List Text → Text
join_space [] = []
join_space (w ∷ ws) = elim ws [ [] ↦ w | v ∷ vs ↦ w ++ 32 ∷ join_space ws ]

unfoldable pub reversed : List Text → List Text
reversed [] = []
reversed (w ∷ ws) = reversed ws ++ w ∷ []

-- a word's own length, and a space if it is not the first
abbrev pub added_length : Text → List Text → ℕ
added_length word [] = length word
added_length word (w ∷ ws) = length word + 1

-- the loop of `_take_overlap` over the words from the last one
unfoldable pub overlap_loop : ℕ → List Text → List Text → ℕ → List Text
overlap_loop limit [] overlap total = overlap
overlap_loop limit (word ∷ words) overlap total =
    let rest = overlap_loop limit words (word ∷ overlap) (total + added_length word overlap) in
    if ltb limit (total + added_length word overlap) then overlap else rest

unfoldable pub take_overlap : ℕ → List Text → List Text
unfolding overlap_loop reversed
take_overlap limit words = overlap_loop limit (reversed words) [] 0

abbrev pub is_nonempty : List Text → Bool
is_nonempty [] = false
is_nonempty (w ∷ ws) = true

-- The loop of `_split_text`: the chunks, as lists of words, in the order in which they are
-- appended.
unfoldable pub split_loop : DocumentChunker → List Text → List Text → ℕ → List (List Text)
unfolding take_overlap
split_loop chunker [] current_words current_len =
    if is_nonempty current_words then current_words ∷ [] else []
split_loop chunker (word ∷ words) current_words current_len =
    let overlap = take_overlap chunker.chunk_overlap current_words in
    let overlap_len = length (join_space overlap) in
    let cut =
      split_loop chunker words (overlap ++ word ∷ []) (overlap_len + added_length word overlap) in
    let grown =
      split_loop chunker words (current_words ++ word ∷ [])
        (current_len + added_length word current_words) in
    if is_nonempty current_words
      && ltb chunker.chunk_size (current_len + added_length word current_words)
    then current_words ∷ cut
    else grown

-- `chunk_text.strip()` is not empty
abbrev pub is_visible : Text → Bool
is_visible t = not (all is_space t)

unfoldable pub split_text : DocumentChunker → Text → List Text
unfolding split_loop split_words join_space
split_text chunker text =
    select is_visible (map join_space (split_loop chunker (split_words [] text) [] 0))

unfoldable pub chunk_texts : Text → ExtractedPage → ℕ → List Text → List DocumentChunk
chunk_texts document_id page index [] = []
chunk_texts document_id page index (text ∷ texts) =
    record {
      document_id = document_id;
      chunk_id = document_id ++ codes "-" ++ decimal index;
      text = text;
      chunk_index = index;
      page_number = page.page_number;
      sheet_name = page.sheet_name;
    }
    ∷ chunk_texts document_id page (suc index) texts

unfoldable pub chunk_pages : DocumentChunker → Text → ℕ → List ExtractedPage → List DocumentChunk
unfolding chunk_texts split_text
chunk_pages chunker document_id index [] = []
chunk_pages chunker document_id index (page ∷ pages) =
    let texts = split_text chunker page.text in
    chunk_texts document_id page index texts
    ++ chunk_pages chunker document_id (index + length texts) pages

unfoldable pub chunk : DocumentChunker → Text → List ExtractedPage → List DocumentChunk
unfolding chunk_pages
chunk chunker document_id pages = chunk_pages chunker document_id 0 pages
