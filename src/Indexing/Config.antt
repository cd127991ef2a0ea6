-- ===== src/Indexing/Config.antt =====
-- app/rag/embedding_config.py
pub mod Names
use documents_rag.Base.{
  ℕ, ◌+◌, Bool, true, false, leb, ◌==◌, ◌&&◌, ◌||◌, List, [], ◌∷◌, ◌++◌, Text, codes, decimal, any,
  all, Option, none, some, if◌then◌else◌,
}

abbrev pub in_range : ℕ → ℕ → ℕ → Bool
in_range low high c = leb low c && leb c high

-- `str.isspace` of one character
abbrev pub is_space : ℕ → Bool
is_space c =
    in_range 9 13 c
    || in_range 28 32 c
    || in_range 8192 8202 c
    || any (λ d. c == d) (133 ∷ 160 ∷ 5760 ∷ 8232 ∷ 8233 ∷ 8239 ∷ 8287 ∷ 12288 ∷ [])

unfoldable pub drop_while : (ℕ → Bool) → Text → Text
drop_while p [] = []
drop_while p (c ∷ cs) = let rest = drop_while p cs in if p c then rest else c ∷ cs

abbrev pub onto_end : (ℕ → Bool) → ℕ → Text → Text
onto_end p c [] = if p c then [] else c ∷ []
onto_end p c (d ∷ ds) = c ∷ d ∷ ds

-- what remains after the trailing characters that pass the test are dropped
unfoldable pub drop_end : (ℕ → Bool) → Text → Text
drop_end p [] = []
drop_end p (c ∷ cs) = onto_end p c (drop_end p cs)

-- `value.strip()`, and `value.strip("-")`
unfoldable pub strip : (ℕ → Bool) → Text → Text
unfolding drop_while drop_end
strip p t = drop_end p (drop_while p t)

-- `str.lower` as far as the pattern sees it: of the other letters only the Kelvin sign and the
-- dotted capital I become an ASCII letter
unfoldable pub lower : Text → Text
lower [] = []
lower (c ∷ cs) =
    let rest = lower cs in
    if in_range 65 90 c
    then (c + 32) ∷ rest
    else if c == 8490
    then 107 ∷ rest
    else if c == 304
    then 105 ∷ 775 ∷ rest
    else c ∷ rest

-- `[a-z0-9_-]`
abbrev pub is_name_char : ℕ → Bool
is_name_char c = in_range 97 122 c || in_range 48 57 c || (c == 95) || (c == 45)

-- `re.sub("[^a-z0-9_-]+", "-", value)`; the flag tells that the last character was replaced
unfoldable pub replace_runs : Bool → Text → Text
replace_runs replaced [] = []
replace_runs replaced (c ∷ cs) =
    let kept = c ∷ replace_runs false cs in
    let more = replace_runs true cs in
    if is_name_char c then kept else if replaced then more else 45 ∷ more

unfoldable pub sanitize : Text → Text
unfolding strip lower replace_runs
sanitize value = strip (λ c. c == 45) (replace_runs false (lower (strip is_space value)))

pub record EmbeddingIndexConfig : Type 0 where
  pub collection_prefix : Text
  pub provider : Text
  pub model : Text
  pub dimension : ℕ
  pub embedding_version : Text
  pub chunking_version : Text

-- `"__".join(...)`
unfoldable pub join_parts : List Text → Text
join_parts [] = []
join_parts (t ∷ ts) = elim ts [ [] ↦ t | u ∷ us ↦ t ++ codes "__" ++ join_parts ts ]

unfoldable pub collection_name : EmbeddingIndexConfig → Text
unfolding sanitize join_parts
collection_name config = join_parts (
    sanitize config.collection_prefix
    ∷ sanitize config.provider
    ∷ sanitize config.model
    ∷ sanitize (codes "e" ++ config.embedding_version)
    ∷ sanitize (codes "c" ++ config.chunking_version)
    ∷ sanitize (codes "d" ++ decimal config.dimension)
    ∷ [])

-- `not value.strip()`
abbrev pub is_blank : Text → Bool
is_blank t = all is_space t

-- `__post_init__`: `none` is its InvalidEmbeddingIndexConfigError
unfoldable pub checked : EmbeddingIndexConfig → Option EmbeddingIndexConfig
checked config =
    if is_blank config.collection_prefix
      || is_blank config.provider
      || is_blank config.model
      || is_blank config.embedding_version
      || is_blank config.chunking_version
      || (config.dimension == 0)
    then none
    else some config
