-- ===== src/Rag/Prompts/Outcomes.antt =====
-- What the prompts of app/rag/prompts/ say, and in which language.
use documents_rag.Base.{
  ℕ, ◌≡◌, refl, Bool, true, false, not, ◌&&◌, ◌||◌, ◌==◌, any, [], ◌∷◌, ◌++◌, Option, none, some,
  Result, ok, err, Text, codes,
}
use documents_rag.Rag.Language.{SupportedLanguage, he, en, is_hebrew_char, is_latin_char, detect}
use documents_rag.Rag.Prompts.{
  PromptType, ResolvedPrompt, PromptError, PromptSettings, is_fixed, resolve_in, resolve, same_bool,
  grounded_answer, direct_answer, clarification, no_results, out_of_scope,
  get_response_language_directive, hebrew_clarification, hebrew_no_results, hebrew_out_of_scope,
}

unfoldable pub starts : Text → Text → Bool
starts [] t = true
starts (p ∷ ps) [] = false
starts (p ∷ ps) (c ∷ cs) = (p == c) && starts ps cs

unfoldable pub contains : Text → Text → Bool
unfolding starts
contains p [] = starts p []
contains p (c ∷ cs) = starts p (c ∷ cs) || contains p cs

abbrev pub opposite : SupportedLanguage → SupportedLanguage
opposite he = en
opposite en = he

-- the script of a language occurs in a text
abbrev pub has_script : SupportedLanguage → Text → Bool
has_script he t = any is_hebrew_char t
has_script en t = any is_latin_char t

abbrev pub code_of : SupportedLanguage → Text
code_of he = codes "(he)"
code_of en = codes "(en)"

-- what a response is about: more details, the documents, or a help that is refused
abbrev pub topic : PromptType → SupportedLanguage → Text
topic clarification en = codes "add more detail"
topic clarification he = 1508 ∷ 1512 ∷ 1496 ∷ 1497 ∷ 1501 ∷ []
topic no_results en = codes "in the indexed documents"
topic no_results he = 1489 ∷ 1502 ∷ 1505 ∷ 1502 ∷ 1499 ∷ 1497 ∷ 1501 ∷ []
topic out_of_scope en = codes "can't help"
topic out_of_scope he = 1500 ∷ 1505 ∷ 1497 ∷ 1497 ∷ 1506 ∷ []
topic _ language = []

-- a response exactly for the fixed types, on its topic, in the script of the language and no other
abbrev pub response_fits : PromptType → SupportedLanguage → Option Text → Bool
response_fits kind language none = not (is_fixed kind)
response_fits kind language (some t) =
    is_fixed kind
    && contains (topic kind language) t
    && has_script language t
    && not (has_script (opposite language) t)

abbrev pub is_grounded : PromptType → Bool
is_grounded grounded_answer = true
is_grounded _ = false

-- only a grounded answer is held to the supplied context
abbrev pub instructions_fit : PromptType → Option Text → Bool
instructions_fit kind none = is_fixed kind
instructions_fit kind (some t) =
    not (is_fixed kind)
    && same_bool (contains (codes "using only the supplied context") t) (is_grounded kind)

-- the directive names the language and not the other one
abbrev pub directive_fits : PromptType → SupportedLanguage → Option Text → Bool
directive_fits kind language none = is_fixed kind
directive_fits kind language (some t) =
    not (is_fixed kind)
    && contains (code_of language) t
    && not (contains (code_of (opposite language)) t)

abbrev pub composed : Option Text → Option Text → Option Text
composed (some shared) (some directive) = some (shared ++ ((10 ∷ 10 ∷ []) ++ directive))
composed _ _ = none

module _ (settings : PromptSettings) where
  pub record IsResolved (kind : PromptType) (language : SupportedLanguage) (p : ResolvedPrompt)
      : Type 0 where
    pub same_kind : p.prompt_type ≡ kind
    pub same_language : p.language ≡ language
    pub version : p.prompt_version ≡ settings.prompt_catalog_version
    pub response : response_fits kind language p.response_text ≡ true
    pub instructions : instructions_fit kind p.shared_instructions ≡ true
    pub directive : directive_fits kind language p.language_directive ≡ true
    pub system : p.system_text ≡ composed p.shared_instructions p.language_directive

  abbrev pub Resolves : PromptType → SupportedLanguage → Result PromptError ResolvedPrompt → Type 0
  Resolves kind language (ok p) = IsResolved kind language p
  Resolves kind language (err e) = ⊥

  IsResolved-fits :
      (kind : PromptType) (language : SupportedLanguage) (p : ResolvedPrompt)
      → p.prompt_type ≡ kind
      → p.language ≡ language
      → p.prompt_version ≡ settings.prompt_catalog_version
      → response_fits kind language p.response_text ≡ true
      → instructions_fit kind p.shared_instructions ≡ true
      → directive_fits kind language p.language_directive ≡ true
      → p.system_text ≡ composed p.shared_instructions p.language_directive
      → IsResolved kind language p
  IsResolved-fits kind language p k l v r i d s = record {
    same_kind = k;
    same_language = l;
    version = v;
    response = r;
    instructions = i;
    directive = d;
    system = s;
  }

  Resolves-in :
      (kind : PromptType) (language : SupportedLanguage)
      → Resolves kind language (resolve_in settings kind language)
  unfolding resolve_in contains get_response_language_directive hebrew_clarification
      hebrew_no_results hebrew_out_of_scope
  Resolves-in grounded_answer he =
      IsResolved-fits grounded_answer he _ refl refl refl refl refl refl refl
  Resolves-in grounded_answer en =
      IsResolved-fits grounded_answer en _ refl refl refl refl refl refl refl
  Resolves-in direct_answer he =
      IsResolved-fits direct_answer he _ refl refl refl refl refl refl refl
  Resolves-in direct_answer en =
      IsResolved-fits direct_answer en _ refl refl refl refl refl refl refl
  Resolves-in clarification he =
      IsResolved-fits clarification he _ refl refl refl refl refl refl refl
  Resolves-in clarification en =
      IsResolved-fits clarification en _ refl refl refl refl refl refl refl
  Resolves-in no_results he = IsResolved-fits no_results he _ refl refl refl refl refl refl refl
  Resolves-in no_results en = IsResolved-fits no_results en _ refl refl refl refl refl refl refl
  Resolves-in out_of_scope he = IsResolved-fits out_of_scope he _ refl refl refl refl refl refl refl
  Resolves-in out_of_scope en = IsResolved-fits out_of_scope en _ refl refl refl refl refl refl refl

  -- Every prompt type resolves for every question, without an error of the catalog or of the
  -- prompt's own check, to a prompt of that type in the detected language. A clarification, no
  -- results and out of scope have a fixed response, about its topic and written in the script of
  -- that language only. The others have a system text: instructions, which hold a grounded answer
  -- and no direct one to the supplied context, and a directive that names that language only.
  pub resolve-Resolves :
      (is_word_char : ℕ → Bool) (kind : PromptType) (question : Text)
      → Resolves kind
          (detect is_word_char settings.default_response_language question)
          (resolve settings is_word_char kind question)
  unfolding resolve
  resolve-Resolves is_word_char kind question =
      Resolves-in kind (detect is_word_char settings.default_response_language question)
