-- ===== src/Rag/Decision.antt =====
-- app/rag/decision.py. The searches for its regular expressions are a record of functions;
-- confidences are tenths.
use documents_rag.Base.{ℕ, Bool, ltb, ◌||◌, Option, some, Text, codes, length, if◌then◌else◌}
use documents_rag.Indexing.Config.{strip, is_space, is_blank}

pub data RagDecision : Type 0 where
  needs_retrieval direct_llm clarification_needed out_of_scope : RagDecision

pub record DecisionResult : Type 0 where
  pub decision : RagDecision
  pub reason : Text
  pub confidence : Option ℕ

-- Whether a pattern of each group is found in a text.
pub record Patterns : Type 0 where
  -- `str.lower`
  pub lower : Text → Text
  pub extraction_intent : Text → Bool
  pub extraction_intent_he : Text → Bool
  pub retrieval : Text → Bool
  pub retrieval_he : Text → Bool

abbrev pub min_question_length : ℕ
min_question_length = 4

abbrev pub decided : RagDecision → ℕ → Text → DecisionResult
decided decision tenths reason = record {
  decision = decision;
  reason = reason;
  confidence = some tenths;
}

module _ (patterns : Patterns) where
  open patterns use {lower, extraction_intent, extraction_intent_he, retrieval, retrieval_he}

  unfoldable pub decide_stripped : Text → DecisionResult
  decide_stripped stripped =
      if is_blank stripped
      then decided clarification_needed 10 (codes "Question is empty.")
      else if ltb (length stripped) min_question_length
      then decided clarification_needed 9 (codes "Question is too short to act on.")
      else if extraction_intent (lower stripped) || extraction_intent_he stripped
      then decided out_of_scope 9
          (codes "Question appears to request sensitive or private data extraction.")
      else if retrieval (lower stripped) || retrieval_he stripped
      then decided needs_retrieval 8 (codes "Question references uploaded or indexed documents.")
      else decided direct_llm 6
          (codes "General question with no document reference or sensitive-data request.")

  unfoldable pub decide : Text → DecisionResult
  unfolding decide_stripped
  decide question = decide_stripped (strip is_space question)
