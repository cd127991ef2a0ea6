-- ===== src/Tests/Answers.antt =====
-- A question about an indexed document, answered with one source.
use documents_rag.Base.{
  Option, ℕ, Bool, true, false, leb, List, [], ◌∷◌, none, some, ok, codes, Text,
}
use documents_rag.Rag.Decision.{Patterns}
use documents_rag.Rag.Language.{en, detect}
use documents_rag.Rag.Orchestrator.{stream_answer}
use documents_rag.Rag.Orchestrator.Outcomes.{Streams, stream_answer-Streams}
use documents_rag.Rag.PromptBuilder.{VectorSearchResult}
use documents_rag.Rag.Prompts.{PromptType, PromptSettings, resolve}
use documents_rag.Rag.Prompts.Outcomes.{Resolves, resolve-Resolves}
use documents_rag.Rag.Retrieval.{RetrievalSettings, Providers, retrieve}
use documents_rag.Rag.Retrieval.Outcomes.{Retrieves, retrieve-Retrieves}
use documents_rag.Tests.Reports.{live}

abbrev question : Text
question = codes "What is in the file"

-- each question is about a document
abbrev patterns : Patterns
patterns = record {
  lower = λ t. t;
  extraction_intent = λ t. false;
  extraction_intent_he = λ t. false;
  retrieval = λ t. true;
  retrieval_he = λ t. false;
}

abbrev is_letter : ℕ → Bool
is_letter c = leb 65 c

abbrev prompts : PromptSettings
prompts = record { prompt_catalog_version = codes "1"; default_response_language = en }

abbrev retrieval : RetrievalSettings ℕ
retrieval = record { index = live; retrieval_top_k = 5; retrieval_score_threshold = some 50 }

abbrev scored : ℕ → Text → VectorSearchResult ℕ
scored score text = record {
  id = codes "p";
  score = score;
  document_id = codes "d";
  chunk_id = codes "c";
  text = text;
  source = codes "a.txt";
  page_number = some 1;
  sheet_name = none;
}

abbrev providers : Providers ℕ
providers = record {
  embed = λ texts. ok ((1 ∷ 2 ∷ []) ∷ []);
  search_similar = λ c v n. ok (scored 80 (codes "hello") ∷ scored 20 (codes "far") ∷ []);
  at_least = λ a b. leb b a;
}

abbrev llm : Text → List Text × Option Text
llm prompt = (codes "It says hello." ∷ [], none)

stream_answer-Streams_example :
    Streams patterns is_letter prompts retrieval providers llm question
      (stream_answer patterns is_letter prompts retrieval providers llm question)
stream_answer-Streams_example =
    stream_answer-Streams patterns is_letter prompts retrieval providers llm question

retrieve-Retrieves_example :
    Retrieves retrieval providers question 5 (retrieve retrieval providers question none)
retrieve-Retrieves_example = retrieve-Retrieves retrieval providers question none

resolve-Resolves_example :
    Resolves prompts PromptType.no_results
      (detect is_letter en question)
      (resolve prompts is_letter PromptType.no_results question)
resolve-Resolves_example = resolve-Resolves prompts is_letter PromptType.no_results question
