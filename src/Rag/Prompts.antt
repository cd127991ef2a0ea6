-- ===== src/Rag/Prompts.antt =====
-- app/rag/prompts/types.py, catalog.py and provider.py
pub mod Outcomes
use documents_rag.Base.{
  ℕ, [], ◌∷◌, ◌≡◌, refl, Bool, true, false, not, ◌++◌, Option, none, some, Result, ok, err, Text,
  codes, is_some, if◌then◌else◌,
}
use documents_rag.Rag.Language.{SupportedLanguage, he, en, detect}

pub data PromptType : Type 0 where
  grounded_answer direct_answer clarification no_results out_of_scope : PromptType

pub record ResolvedPrompt : Type 0 where
  pub prompt_type : PromptType
  pub language : SupportedLanguage
  pub prompt_version : Text
  pub system_text : Option Text
  pub response_text : Option Text
  pub shared_instructions : Option Text
  pub language_directive : Option Text

pub data PromptError : Type 0 where
  not_exactly_one_text shared_mismatch directive_mismatch unsupported_type : PromptError

abbrev pub same_bool : Bool → Bool → Bool
same_bool true b = b
same_bool false b = not b

-- `__post_init__`
unfoldable pub check_prompt : ResolvedPrompt → Result PromptError ResolvedPrompt
check_prompt p =
    if same_bool (is_some p.system_text) (is_some p.response_text)
    then err not_exactly_one_text
    else if not (same_bool (is_some p.system_text) (is_some p.shared_instructions))
    then err shared_mismatch
    else if not (same_bool (is_some p.system_text) (is_some p.language_directive))
    then err directive_mismatch
    else ok p

unfoldable pub get_shared_instructions : PromptType → Result PromptError Text
get_shared_instructions grounded_answer = ok (
    codes "You are a helpful assistant that answers questions using only the supplied context. "
    ++ (codes
          "Do not invent or assume information that is not present in the context. If the answer "
        ++ (codes
              "is not present in the context, state clearly that the context does not contain enough "
            ++ (codes
                  "information, instead of guessing. Preserve quoted source text in its original language "
                ++ (codes
                      "— never translate a quotation. Keep source titles and attribution labels (such as "
                    ++ (codes
                          "[S1], [S2]) intact and untranslated. Never translate code, API names, class names, "
                        ++ (codes
                              "filenames, commands, environment variables, or error messages — keep every technical "
                            ++ codes
                                "identifier exactly as written, regardless of the response language.")))))))
get_shared_instructions direct_answer = ok (
    codes "You are a helpful assistant. Answer the user's question directly. Never translate "
    ++ (codes "code, API names, class names, filenames, commands, environment variables, or error "
        ++ (codes
              "messages — keep every technical identifier exactly as written, regardless of the "
            ++ codes "response language.")))
get_shared_instructions _ = err unsupported_type

unfoldable pub get_response_language_directive : SupportedLanguage → Text
get_response_language_directive en = codes "Respond directly and naturally in English (en)."
get_response_language_directive he = codes "Respond directly and naturally in Hebrew (he)."

-- the composed system prompt
unfoldable pub get_system_text : PromptType → SupportedLanguage → Result PromptError Text
unfolding get_shared_instructions get_response_language_directive
get_system_text prompt_type language = elim (get_shared_instructions prompt_type) [
  | ok shared ↦ ok (shared ++ ((10 ∷ 10 ∷ []) ++ get_response_language_directive language))
  | err e ↦ err e
]

-- the Hebrew responses by their code points
unfoldable pub hebrew_clarification : Text
hebrew_clarification =
    1514 ∷ 1493 ∷ 1499 ∷ 1500 ∷ 47 ∷ 1497 ∷ 32 ∷ 1500 ∷ 1504 ∷ 1505 ∷ 1495 ∷ 32 ∷ 1502 ∷ 1495 ∷ 1491
    ∷ 1513 ∷ 32 ∷ 1488 ∷ 1493 ∷ 32 ∷ 1500 ∷ 1492 ∷ 1493 ∷ 1505 ∷ 1497 ∷ 1507 ∷ 32 ∷ 1508 ∷ 1512
    ∷ 1496 ∷ 1497 ∷ 1501 ∷ 32 ∷ 1504 ∷ 1493 ∷ 1505 ∷ 1508 ∷ 1497 ∷ 1501 ∷ 63 ∷ 32 ∷ 1492 ∷ 1513
    ∷ 1488 ∷ 1500 ∷ 1492 ∷ 32 ∷ 1511 ∷ 1510 ∷ 1512 ∷ 1492 ∷ 32 ∷ 1502 ∷ 1491 ∷ 1497 ∷ 32 ∷ 1488
    ∷ 1493 ∷ 32 ∷ 1500 ∷ 1488 ∷ 32 ∷ 1489 ∷ 1512 ∷ 1493 ∷ 1512 ∷ 1492 ∷ 32 ∷ 1502 ∷ 1505 ∷ 1508
    ∷ 1497 ∷ 1511 ∷ 32 ∷ 1499 ∷ 1491 ∷ 1497 ∷ 32 ∷ 1500 ∷ 1508 ∷ 1506 ∷ 1493 ∷ 1500 ∷ 32 ∷ 1500
    ∷ 1508 ∷ 1497 ∷ 1492 ∷ 46 ∷ []

unfoldable pub hebrew_no_results : Text
hebrew_no_results =
    1500 ∷ 1488 ∷ 32 ∷ 1502 ∷ 1510 ∷ 1488 ∷ 1514 ∷ 1497 ∷ 32 ∷ 1502 ∷ 1497 ∷ 1491 ∷ 1506 ∷ 32 ∷ 1512
    ∷ 1500 ∷ 1493 ∷ 1493 ∷ 1504 ∷ 1496 ∷ 1497 ∷ 32 ∷ 1489 ∷ 1502 ∷ 1505 ∷ 1502 ∷ 1499 ∷ 1497 ∷ 1501
    ∷ 32 ∷ 1492 ∷ 1502 ∷ 1488 ∷ 1493 ∷ 1504 ∷ 1491 ∷ 1511 ∷ 1505 ∷ 1497 ∷ 1501 ∷ 32 ∷ 1499 ∷ 1491
    ∷ 1497 ∷ 32 ∷ 1500 ∷ 1506 ∷ 1504 ∷ 1493 ∷ 1514 ∷ 32 ∷ 1506 ∷ 1500 ∷ 32 ∷ 1513 ∷ 1488 ∷ 1500
    ∷ 1492 ∷ 32 ∷ 1494 ∷ 1493 ∷ 46 ∷ []

unfoldable pub hebrew_out_of_scope : Text
hebrew_out_of_scope =
    1488 ∷ 1497 ∷ 1504 ∷ 1504 ∷ 1497 ∷ 32 ∷ 1497 ∷ 1499 ∷ 1493 ∷ 1500 ∷ 47 ∷ 1492 ∷ 32 ∷ 1500 ∷ 1505
    ∷ 1497 ∷ 1497 ∷ 1506 ∷ 32 ∷ 1489 ∷ 1489 ∷ 1511 ∷ 1513 ∷ 1492 ∷ 32 ∷ 1494 ∷ 1493 ∷ 46 ∷ []

unfoldable pub get_response_text : PromptType → SupportedLanguage → Result PromptError Text
get_response_text clarification en = ok (
    codes "Could you rephrase or add more detail? Your question is too short or unclear to act on.")
get_response_text no_results en = ok (
    codes
      "I couldn't find any relevant information in the indexed documents to answer this question.")
get_response_text out_of_scope en = ok (codes "I can't help with that request.")
get_response_text clarification he = ok hebrew_clarification
get_response_text no_results he = ok hebrew_no_results
get_response_text out_of_scope he = ok hebrew_out_of_scope
get_response_text grounded_answer language = err unsupported_type
get_response_text direct_answer language = err unsupported_type

abbrev pub is_fixed : PromptType → Bool
is_fixed clarification = true
is_fixed no_results = true
is_fixed out_of_scope = true
is_fixed _ = false

pub record PromptSettings : Type 0 where
  pub prompt_catalog_version : Text
  pub default_response_language : SupportedLanguage

module _ (settings : PromptSettings) where
  abbrev pub fixed_prompt :
      PromptType → SupportedLanguage → Result PromptError Text → Result PromptError ResolvedPrompt
  fixed_prompt prompt_type language (err e) = err e
  fixed_prompt prompt_type language (ok response) = check_prompt (record {
    prompt_type = prompt_type;
    language = language;
    prompt_version = settings.prompt_catalog_version;
    system_text = none;
    response_text = some response;
    shared_instructions = none;
    language_directive = none;
  })

  abbrev pub system_prompt :
      PromptType → SupportedLanguage → Result PromptError Text → Result PromptError ResolvedPrompt
  system_prompt prompt_type language (err e) = err e
  system_prompt prompt_type language (ok shared) = check_prompt (record {
    prompt_type = prompt_type;
    language = language;
    prompt_version = settings.prompt_catalog_version;
    system_text = some (shared ++ ((10 ∷ 10 ∷ []) ++ get_response_language_directive language));
    response_text = none;
    shared_instructions = some shared;
    language_directive = some (get_response_language_directive language);
  })

  unfoldable pub resolve_in : PromptType → SupportedLanguage → Result PromptError ResolvedPrompt
  unfolding check_prompt get_response_text get_shared_instructions
  resolve_in prompt_type language =
      if is_fixed prompt_type
      then fixed_prompt prompt_type language (get_response_text prompt_type language)
      else system_prompt prompt_type language (get_shared_instructions prompt_type)

  -- `PromptProvider.resolve`
  unfoldable pub resolve : (ℕ → Bool) → PromptType → Text → Result PromptError ResolvedPrompt
  unfolding resolve_in
  resolve is_word_char prompt_type question =
      resolve_in prompt_type (detect is_word_char settings.default_response_language question)
