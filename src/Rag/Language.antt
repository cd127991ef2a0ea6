-- ===== src/Rag/Language.antt =====
-- app/rag/language.py. `is_word_char` is the class `\w` of Python's re on one code point.
use documents_rag.Base.{
  ℕ, Bool, true, false, ltb, leb, ◌==◌, ◌&&◌, ◌||◌, List, [], ◌∷◌, ◌++◌, Option, none, some, Text,
  any, select, length, if◌then◌else◌,
}

pub data SupportedLanguage : Type 0 where
  he en : SupportedLanguage

-- U+0590 to U+05FF
abbrev pub is_hebrew_char : ℕ → Bool
is_hebrew_char c = leb 1424 c && leb c 1535

-- `[A-Za-z]`
abbrev pub is_latin_char : ℕ → Bool
is_latin_char c = (leb 65 c && leb c 90) || (leb 97 c && leb c 122)

unfoldable pub classify_word : Text → Option SupportedLanguage
classify_word word =
    if any is_hebrew_char word then some he else if any is_latin_char word then some en else none

abbrev pub is_he : Option SupportedLanguage → Bool
is_he none = false
is_he (some language) = elim language [ he ↦ true | en ↦ false ]

abbrev pub is_en : Option SupportedLanguage → Bool
is_en none = false
is_en (some language) = elim language [ he ↦ false | en ↦ true ]

abbrev pub close_word : Text → List Text → List Text
close_word [] words = words
close_word (c ∷ cs) words = (c ∷ cs) ∷ words

module _ (is_word_char : ℕ → Bool) where
  -- `re.findall(r"\w+", text)`; the second argument is the word that is being read
  unfoldable pub find_words : Text → Text → List Text
  find_words [] word = close_word word []
  find_words (c ∷ cs) word =
      let ended = close_word word (find_words cs []) in
      let longer = find_words cs (word ++ c ∷ []) in if is_word_char c then longer else ended

abbrev pub by_counts : SupportedLanguage → ℕ → ℕ → SupportedLanguage
by_counts default hebrew_count latin_count =
    if (hebrew_count == 0) && (latin_count == 0)
    then default
    else if ltb latin_count hebrew_count
    then he
    else if ltb hebrew_count latin_count
    then en
    else default

unfoldable pub detect_in : SupportedLanguage → List Text → SupportedLanguage
unfolding classify_word
detect_in default words =
    by_counts default (length (select (λ w. is_he (classify_word w)) words))
      (length (select (λ w. is_en (classify_word w)) words))

-- `ScriptBasedLanguageDetector.detect`
unfoldable pub detect : (ℕ → Bool) → SupportedLanguage → Text → SupportedLanguage
unfolding detect_in find_words
detect is_word_char default text = detect_in default (find_words is_word_char text [])
