-- ===== src/Rag/PromptBuilder.antt =====
-- app/rag/prompt_builder.py. `Score` is the type of the floats.
use documents_rag.Base.{
  ℕ, suc, Bool, not, List, [], ◌∷◌, ◌++◌, Option, none, some, Text, codes, decimal, select, map,
}
use documents_rag.Indexing.Config.{is_blank}

pub record VectorSearchResult (Score : Type 0) : Type 0 where
  pub id : Text
  pub score : Score
  pub document_id : Text
  pub chunk_id : Text
  pub text : Text
  pub source : Text
  pub page_number : Option ℕ
  pub sheet_name : Option Text

pub record PromptSource (Score : Type 0) : Type 0 where
  pub document_id : Text
  pub chunk_id : Text
  pub source : Text
  pub score : Score
  pub page_number : Option ℕ
  pub sheet_name : Option Text

pub record BuiltRagPrompt (Score : Type 0) : Type 0 where
  pub system_prompt : Text
  pub user_prompt : Text
  pub context : Text
  pub sources : List (PromptSource Score)

unfoldable pub system_prompt : Text
system_prompt =
    codes "You are a helpful assistant that answers questions using only the supplied context. "
    ++ (codes
          "Do not invent or assume information that is not present in the context. If the answer is "
        ++ codes "not present in the context, say so explicitly instead of guessing.")

unfoldable pub no_results_context : Text
no_results_context = codes "No relevant context was found for this question."

unfoldable pub user_prompt_of : Text → Text → Text
user_prompt_of question context =
    codes "Context:"
    ++ ((10 ∷ [])
        ++ (context
            ++ ((10 ∷ 10 ∷ [])
                ++ (codes "Question: "
                    ++ (question
                        ++ ((10 ∷ 10 ∷ [])
                            ++ codes
                                "Answer using only the context above. If the answer isn't in the context, say so."))))))

abbrev pub page_part : Option ℕ → Text
page_part none = []
page_part (some n) = codes " page " ++ decimal n

abbrev pub sheet_part : Option Text → Text
sheet_part none = []
sheet_part (some name) = codes " sheet " ++ name

-- `[S{index}]`
unfoldable pub label : ℕ → Text
label index = codes "[S" ++ (decimal index ++ codes "]")

module _ {Score : Type 0} where
  abbrev pub to_prompt_source : VectorSearchResult Score → PromptSource Score
  to_prompt_source result = record {
    document_id = result.document_id;
    chunk_id = result.chunk_id;
    source = result.source;
    score = result.score;
    page_number = result.page_number;
    sheet_name = result.sheet_name;
  }

  unfoldable pub format_source_block : Text → VectorSearchResult Score → Text
  format_source_block name result =
      name
      ++ (codes " "
          ++ (result.source
              ++ (page_part result.page_number
                  ++ (sheet_part result.sheet_name ++ ((10 ∷ []) ++ result.text)))))

  -- the blocks from `index` on, with a blank line between two
  unfoldable pub blocks_from : ℕ → List (VectorSearchResult Score) → Text
  unfolding format_source_block
  blocks_from index [] = []
  blocks_from index (result ∷ results) =
      let later = blocks_from (suc index) results in
      format_source_block (label index) result
      ++ elim results [ [] ↦ [] | next ∷ more ↦ (10 ∷ 10 ∷ []) ++ later ]

  abbrev pub has_text : VectorSearchResult Score → Bool
  has_text result = not (is_blank result.text)

  unfoldable pub build_from : Text → List (VectorSearchResult Score) → BuiltRagPrompt Score
  build_from question [] = record {
    system_prompt = system_prompt;
    user_prompt = user_prompt_of question no_results_context;
    context = no_results_context;
    sources = [];
  }
  build_from question (result ∷ results) =
      let context = blocks_from 1 (result ∷ results) in
      record {
        system_prompt = system_prompt;
        user_prompt = user_prompt_of question context;
        context = context;
        sources = map to_prompt_source (result ∷ results);
      }

  unfoldable pub build : Text → List (VectorSearchResult Score) → BuiltRagPrompt Score
  unfolding build_from
  build question results = build_from question (select has_text results)
