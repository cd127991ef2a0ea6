-- ===== src/Rag/Orchestrator/Outcomes.antt =====
-- What a run of app/rag/orchestrator.py yields.
use documents_rag.Base.{
  ℕ, ◌≡◌, ◌⊎◌, refl, ap, ◌∙◌, sym, Bool, true, false, ◌||◌, ◌==◌, List, [], ◌∷◌, ◌++◌, Option, none,
  Result, ok, err, Text, map, select, length, codes, is_some, is_none, inl, inr,
}
use documents_rag.Rag.Decision.{RagDecision, DecisionResult, Patterns, decide}
use documents_rag.Rag.Language.{SupportedLanguage, detect}
use documents_rag.Rag.Orchestrator.{
  OrchestratorMetadata, metadata, token, retrieval_failed, AnswerStream, failed, fixed_answer,
  generated, answer_built, answer_retrieved, answer_decided, stream_answer, text_or_empty,
  text_or_none,
}
use documents_rag.Rag.PromptBuilder.{
  VectorSearchResult, PromptSource, build, build_from, has_text, to_prompt_source,
}
use documents_rag.Rag.Prompts.{PromptType, ResolvedPrompt, PromptError, PromptSettings, resolve}
use documents_rag.Rag.Prompts.Outcomes.{Resolves, resolve-Resolves}
use documents_rag.Rag.Retrieval.{RetrievalError, RetrievalSettings, Providers, retrieve}

-- The decision and the sources decide whether the model is called.
abbrev pub calls_model : {Score : Type 0} → RagDecision → List (PromptSource Score) → Bool
calls_model RagDecision.direct_llm sources = true
calls_model RagDecision.needs_retrieval [] = false
calls_model RagDecision.needs_retrieval (s ∷ ss) = true
calls_model _ sources = false

abbrev pub retrieves : RagDecision → Bool
retrieves RagDecision.needs_retrieval = true
retrieves _ = false

module _ {Score : Type 0} (patterns : Patterns) (is_word_char : ℕ → Bool) (prompts : PromptSettings)
    (retrieval : RetrievalSettings Score) (providers : Providers Score)
    (llm : Text → List Text × Option Text) where
  abbrev pub sources_of :
      Result RetrievalError (List (VectorSearchResult Score)) → List (PromptSource Score)
  sources_of (ok results) = map to_prompt_source (select has_text results)
  sources_of (err e) = []

  -- the results with visible text, if the question needs retrieval
  abbrev pub expected_sources : Text → RagDecision → List (PromptSource Score)
  expected_sources question RagDecision.needs_retrieval =
      sources_of (retrieve retrieval providers question none)
  expected_sources question _ = []

  -- the metadata and the texts of a turn that answers
  pub record IsTurn (question : Text) (m : OrchestratorMetadata Score) (texts : List Text)
      (a : AnswerStream Score) : Type 0 where
    pub shown : a.events ≡ metadata m ∷ map token texts
    pub decision : m.decision ≡ (decide patterns question).decision
    pub retrieval_used : m.retrieval_used ≡ retrieves m.decision
    pub sources : m.sources ≡ expected_sources question m.decision
    pub model_iff : is_some a.llm_prompt ≡ calls_model m.decision m.sources
    pub one_fixed_text : calls_model m.decision m.sources || (length texts == 1) ≡ true
    pub fixed_ends : calls_model m.decision m.sources || is_none a.raised ≡ true

  abbrev Fails : Text → AnswerStream Score → Type 0
  Fails question a =
      (e : RetrievalError) × ((decide patterns question).decision ≡ RagDecision.needs_retrieval)
      × (retrieve retrieval providers question none ≡ err e)
      × (a ≡ failed patterns is_word_char prompts retrieval providers llm (retrieval_failed e))

  abbrev pub Streams : Text → AnswerStream Score → Type 0
  Streams question a =
      Fails question a
      ⊎ ((m : OrchestratorMetadata Score) × (texts : List Text) × IsTurn question m texts a)

  abbrev turn : DecisionResult → Bool → List (PromptSource Score) → OrchestratorMetadata Score
  turn result used sources = record {
    decision = result.decision;
    reason = result.reason;
    retrieval_used = used;
    sources = sources;
  }

  fixed_turn :
      (question : Text) (result : DecisionResult) (used : Bool) (kind : PromptType)
      (language : SupportedLanguage) (resolved : Result PromptError ResolvedPrompt)
      → Resolves prompts kind language resolved
      → result ≡ decide patterns question
      → used ≡ retrieves result.decision
      → [] ≡ expected_sources question result.decision
      → calls_model {Score = Score} result.decision [] ≡ false
      → Streams question
          (fixed_answer patterns is_word_char prompts retrieval providers llm result used resolved)
  fixed_turn question result used kind language (err e) r d u s c = absurd r
  fixed_turn question result used kind language (ok p) r d u s c = inr (
    turn result used [],
    text_or_empty p.response_text ∷ [],
    record {
      shown = refl;
      decision = ap (λ (x : DecisionResult). x.decision) d;
      retrieval_used = u;
      sources = s;
      model_iff = sym c;
      one_fixed_text = rw c refl;
      fixed_ends = rw c refl;
    },
  )

  generated_turn :
      (question : Text) (result : DecisionResult) (used : Bool)
      (sources : List (PromptSource Score)) (user_text : Text) (kind : PromptType)
      (language : SupportedLanguage) (resolved : Result PromptError ResolvedPrompt)
      → Resolves prompts kind language resolved
      → result ≡ decide patterns question
      → used ≡ retrieves result.decision
      → sources ≡ expected_sources question result.decision
      → calls_model result.decision sources ≡ true
      → Streams question (
          generated patterns is_word_char prompts retrieval providers llm result used sources
            user_text resolved)
  generated_turn question result used sources user_text kind language (err e) r d u s c = absurd r
  generated_turn question result used sources user_text kind language (ok p) r d u s c =
      let (texts, raised) = llm (text_or_none p.system_text ++ ((10 ∷ 10 ∷ []) ++ user_text)) in
      inr (
        turn result used sources,
        texts,
        record {
          shown = refl;
          decision = ap (λ (x : DecisionResult). x.decision) d;
          retrieval_used = u;
          sources = s;
          model_iff = sym c;
          one_fixed_text = rw c refl;
          fixed_ends = rw c refl;
        },
      )

  spoken : Text → SupportedLanguage
  spoken question = detect is_word_char prompts.default_response_language question

  built_turn :
      (question : Text) (result : DecisionResult) (visible : List (VectorSearchResult Score))
      → result ≡ decide patterns question
      → RagDecision.needs_retrieval ≡ result.decision
      → map to_prompt_source visible ≡ sources_of (retrieve retrieval providers question none)
      → Streams question (
          answer_built patterns is_word_char prompts retrieval providers llm result question
            (build_from question visible))
  unfolding answer_built build_from spoken
  built_turn question result [] d n s =
      fixed_turn question result true PromptType.no_results (spoken question)
        (resolve prompts is_word_char PromptType.no_results question)
        (resolve-Resolves prompts is_word_char PromptType.no_results question) d (ap retrieves n)
        (s ∙ ap (expected_sources question) n) (ap (λ x. calls_model {Score = Score} x []) (sym n))
  built_turn question result (v ∷ vs) d n s =
      generated_turn question result true (map to_prompt_source (v ∷ vs))
        (build_from question (v ∷ vs)).user_prompt PromptType.grounded_answer (spoken question)
        (resolve prompts is_word_char PromptType.grounded_answer question)
        (resolve-Resolves prompts is_word_char PromptType.grounded_answer question) d
        (ap retrieves n) (s ∙ ap (expected_sources question) n)
        (ap (λ x. calls_model x (map to_prompt_source (v ∷ vs))) (sym n))

  retrieved_turn :
      (question : Text) (result : DecisionResult)
      (found : Result RetrievalError (List (VectorSearchResult Score)))
      → retrieve retrieval providers question none ≡ found
      → result ≡ decide patterns question
      → RagDecision.needs_retrieval ≡ result.decision
      → Streams question (
          answer_retrieved patterns is_word_char prompts retrieval providers llm result question
            found)
  unfolding answer_retrieved build
  retrieved_turn question result (err e) h d n =
      inl (e, ap (λ (x : DecisionResult). x.decision) (sym d) ∙ sym n, h, refl)
  retrieved_turn question result (ok results) h d n =
      built_turn question result (select has_text results) d n (ap sources_of (sym h))

  decided_turn :
      (question : Text) (result : DecisionResult) (decision : RagDecision)
      → result ≡ decide patterns question
      → decision ≡ result.decision
      → Streams question (
          answer_decided patterns is_word_char prompts retrieval providers llm question result
            decision)
  unfolding answer_decided spoken
  decided_turn question result RagDecision.clarification_needed d n =
      fixed_turn question result false PromptType.clarification (spoken question)
        (resolve prompts is_word_char PromptType.clarification question)
        (resolve-Resolves prompts is_word_char PromptType.clarification question) d (ap retrieves n)
        (ap (expected_sources question) n) (ap (λ x. calls_model {Score = Score} x []) (sym n))
  decided_turn question result RagDecision.out_of_scope d n =
      fixed_turn question result false PromptType.out_of_scope (spoken question)
        (resolve prompts is_word_char PromptType.out_of_scope question)
        (resolve-Resolves prompts is_word_char PromptType.out_of_scope question) d (ap retrieves n)
        (ap (expected_sources question) n) (ap (λ x. calls_model {Score = Score} x []) (sym n))
  decided_turn question result RagDecision.needs_retrieval d n =
      retrieved_turn question result (retrieve retrieval providers question none) refl d n
  decided_turn question result RagDecision.direct_llm d n =
      generated_turn question result false [] (codes "Question: " ++ question)
        PromptType.direct_answer (spoken question)
        (resolve prompts is_word_char PromptType.direct_answer question)
        (resolve-Resolves prompts is_word_char PromptType.direct_answer question) d (ap retrieves n)
        (ap (expected_sources question) n) (ap (λ x. calls_model {Score = Score} x []) (sym n))

  -- A question is answered by one metadata event followed by texts only, or not at all if its
  -- retrieval raises. The metadata names the decision and the results with visible text as sources.
  -- The model is called exactly for a direct question or a retrieval with a source; otherwise
  -- there is exactly one text and no error.
  pub stream_answer-Streams :
      (question : Text)
      → Streams question
          (stream_answer patterns is_word_char prompts retrieval providers llm question)
  unfolding stream_answer
  stream_answer-Streams question =
      decided_turn question (decide patterns question) (decide patterns question).decision refl refl
