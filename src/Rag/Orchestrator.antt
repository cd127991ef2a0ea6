-- ===== src/Rag/Orchestrator.antt =====
-- app/rag/orchestrator.py. A run is the events it yields, the prompt it sent to the model, and what
-- it raised at the end; the model's stream is the texts it yields and what it raises.
pub mod Outcomes
use documents_rag.Base.{
  ℕ, Bool, true, false, List, [], ◌∷◌, ◌++◌, Option, none, some, Result, ok, err, Text, codes, map,
}
use documents_rag.Rag.Decision.{RagDecision, DecisionResult, Patterns, decide}
use documents_rag.Rag.PromptBuilder.{VectorSearchResult, PromptSource, BuiltRagPrompt, build}
use documents_rag.Rag.Prompts.{PromptType, ResolvedPrompt, PromptError, PromptSettings, resolve}
use documents_rag.Rag.Retrieval.{RetrievalError, RetrievalSettings, Providers, retrieve}

pub record OrchestratorMetadata (Score : Type 0) : Type 0 where
  pub decision : RagDecision
  pub reason : Text
  pub retrieval_used : Bool
  pub sources : List (PromptSource Score)

pub data OrchestratorEvent (Score : Type 0) : Type 0 where
  metadata : OrchestratorMetadata Score → OrchestratorEvent Score
  token : Text → OrchestratorEvent Score

pub data RagError : Type 0 where
  retrieval_failed : RetrievalError → RagError
  prompt_failed : PromptError → RagError
  llm_failed : Text → RagError

pub record AnswerStream (Score : Type 0) : Type 0 where
  pub events : List (OrchestratorEvent Score)
  pub llm_prompt : Option Text
  pub raised : Option RagError

abbrev pub text_or_empty : Option Text → Text
text_or_empty none = []
text_or_empty (some t) = t

-- an f-string writes `None` for a missing text
abbrev pub text_or_none : Option Text → Text
text_or_none none = codes "None"
text_or_none (some t) = t

abbrev pub llm_error : Option Text → Option RagError
llm_error none = none
llm_error (some e) = some (llm_failed e)

module _ {Score : Type 0} (patterns : Patterns) (is_word_char : ℕ → Bool) (prompts : PromptSettings)
    (retrieval : RetrievalSettings Score) (providers : Providers Score)
    (llm : Text → List Text × Option Text) where
  abbrev pub Answer : Type 0
  Answer = AnswerStream Score

  abbrev pub metadata_of :
      DecisionResult → Bool → List (PromptSource Score) → OrchestratorEvent Score
  metadata_of result retrieval_used sources = metadata (record {
    decision = result.decision;
    reason = result.reason;
    retrieval_used = retrieval_used;
    sources = sources;
  })

  abbrev pub failed : RagError → Answer
  failed e = record { events = []; llm_prompt = none; raised = some e }

  -- a fixed response, with no call of the model
  abbrev pub fixed_answer : DecisionResult → Bool → Result PromptError ResolvedPrompt → Answer
  fixed_answer result retrieval_used (err e) = failed (prompt_failed e)
  fixed_answer result retrieval_used (ok resolved) = record {
    events =
        metadata_of result retrieval_used [] ∷ token (text_or_empty resolved.response_text) ∷ [];
    llm_prompt = none;
    raised = none;
  }

  abbrev pub streamed : OrchestratorEvent Score → Text → List Text × Option Text → Answer
  streamed first_event prompt (texts, raised) = record {
    events = first_event ∷ map token texts;
    llm_prompt = some prompt;
    raised = llm_error raised;
  }

  abbrev pub generated :
      DecisionResult
      → Bool
      → List (PromptSource Score)
      → Text
      → Result PromptError ResolvedPrompt
      → Answer
  generated result retrieval_used sources user_text (err e) = failed (prompt_failed e)
  generated result retrieval_used sources user_text (ok resolved) =
      let prompt = text_or_none resolved.system_text ++ ((10 ∷ 10 ∷ []) ++ user_text) in
      streamed (metadata_of result retrieval_used sources) prompt (llm prompt)

  unfoldable pub answer_built : DecisionResult → Text → BuiltRagPrompt Score → Answer
  answer_built result question built = elim built.sources [
    | [] ↦ fixed_answer result true (resolve prompts is_word_char PromptType.no_results question)
    | source ∷ sources ↦
        generated result true (source ∷ sources) built.user_prompt
          (resolve prompts is_word_char PromptType.grounded_answer question)
  ]

  unfoldable pub answer_retrieved :
      DecisionResult → Text → Result RetrievalError (List (VectorSearchResult Score)) → Answer
  unfolding answer_built
  answer_retrieved result question (err e) = failed (retrieval_failed e)
  answer_retrieved result question (ok results) =
      answer_built result question (build question results)

  unfoldable pub answer_decided : Text → DecisionResult → RagDecision → Answer
  unfolding answer_retrieved
  answer_decided question result RagDecision.clarification_needed =
      fixed_answer result false (resolve prompts is_word_char PromptType.clarification question)
  answer_decided question result RagDecision.out_of_scope =
      fixed_answer result false (resolve prompts is_word_char PromptType.out_of_scope question)
  answer_decided question result RagDecision.needs_retrieval =
      answer_retrieved result question (retrieve retrieval providers question none)
  answer_decided question result RagDecision.direct_llm =
      generated result false [] (codes "Question: " ++ question)
        (resolve prompts is_word_char PromptType.direct_answer question)

  unfoldable pub stream_answer : Text → Answer
  unfolding answer_decided
  stream_answer question =
      let result = decide patterns question in answer_decided question result result.decision
