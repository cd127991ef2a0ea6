-- ===== src/Storage/Keys.antt =====
-- app/storage/keys.py, with the parts of a POSIX path that it reads through pathlib.
pub mod Validity
use documents_rag.Base.{
  ℕ, suc, ◌-◌, Bool, false, not, ltb, leb, ◌==◌, ◌&&◌, ◌||◌, List, [], ◌∷◌, ◌++◌, Option, none,
  some, Text, codes, select, length, text_eq, drop, if◌then◌else◌, Result, all, err, any, ok,
}
use documents_rag.Indexing.Config.{is_space}
use documents_rag.Db.Env.{Env}
use documents_rag.Db.Models.{Document}

abbrev pub slash : ℕ
slash = 47

abbrev pub dot : ℕ
dot = 46

-- one more character in front of the first field
abbrev pub onto_first : ℕ → List Text → List Text
onto_first c [] = (c ∷ []) ∷ []
onto_first c (t ∷ ts) = (c ∷ t) ∷ ts

-- `t.split(sep)`
unfoldable pub split_on : ℕ → Text → List Text
split_on sep [] = [] ∷ []
split_on sep (c ∷ cs) =
    let fields = split_on sep cs in if c == sep then [] ∷ fields else onto_first c fields

abbrev pub is_part : Text → Bool
is_part t = not (text_eq t []) && not (text_eq t (dot ∷ []))

-- `PurePosixPath(t).parts`, without the root
unfoldable pub parts : Text → List Text
unfolding split_on
parts t = select is_part (split_on slash t)

unfoldable pub last : List Text → Text
last [] = []
last (t ∷ ts) = elim ts [ [] ↦ t | u ∷ us ↦ last ts ]

-- `name.rfind(".")`
unfoldable pub rfind_dot : Text → Option ℕ
rfind_dot [] = none
rfind_dot (c ∷ cs) = elim (rfind_dot cs) [
  | some i ↦ some (suc i)
  | none ↦ if c == dot then some 0 else none
]

abbrev pub suffix_at : Text → Option ℕ → Text
suffix_at name none = []
suffix_at name (some i) = if ltb 0 i && ltb i (length name - 1) then drop i name else []

-- `PurePath.suffix`
unfoldable pub suffix_of : Text → Text
unfolding rfind_dot
suffix_of name = suffix_at name (rfind_dot name)

abbrev pub between : ℕ → ℕ → ℕ → Bool
between low high c = leb low c && leb c high

abbrev pub is_alphanumeric : ℕ → Bool
is_alphanumeric c = between 65 90 c || between 97 122 c || between 48 57 c

-- `^[A-Za-z0-9]+$` with `match`: `$` also matches before a final newline
unfoldable pub is_safe_body : Text → Bool
is_safe_body [] = false
is_safe_body (c ∷ cs) =
    is_alphanumeric c && (text_eq cs [] || text_eq cs (10 ∷ []) || is_safe_body cs)

abbrev pub max_safe_suffix_length : ℕ
max_safe_suffix_length = 10

abbrev pub safe_suffix : Text → Text
safe_suffix suffix =
    if ltb 1 (length suffix)
      && leb (length suffix) max_safe_suffix_length
      && is_safe_body (drop 1 suffix)
    then suffix
    else []

-- `uuid.hex` is `str(uuid)` without its dashes
abbrev pub uuid_hex : Env → ℕ → Text
uuid_hex env n = select (λ c. not (c == 45)) (env.show_uuid (env.uuid n))

-- `n` counts the UUIDs that the call has drawn before this one
unfoldable pub generate_object_key : Env → ℕ → ℕ → Text → Text
unfolding suffix_of last parts is_safe_body
generate_object_key env n document_id original_filename =
    codes "documents/"
    ++ (env.show_uuid document_id
        ++ (codes "/"
            ++ (uuid_hex env n ++ safe_suffix (suffix_of (last (parts original_filename))))))

-- `key.rsplit("/", 1)[-1]`
unfoldable pub base_name : Text → Text
unfolding split_on last
base_name key = last (split_on slash key)

-- `document.storage_key or document.stored_path`: an empty key is as good as none
unfoldable pub resolve_document_storage_key : Document → Text
resolve_document_storage_key document = elim document.storage_key [
  | none ↦ document.stored_path
  | some key ↦ elim key [ [] ↦ document.stored_path | c ∷ cs ↦ c ∷ cs ]
]

pub data KeyError : Type 0 where
  empty_key absolute_key parent_reference : KeyError

-- `PurePosixPath(key).is_absolute()`
abbrev pub is_absolute : Text → Bool
is_absolute [] = false
is_absolute (c ∷ cs) = c == slash

abbrev pub parent : Text
parent = dot ∷ dot ∷ []

-- the key unchanged, or the reason of its StorageKeyError
unfoldable pub validate_object_key : Text → Result KeyError Text
unfolding parts
validate_object_key key =
    if all is_space key
    then err empty_key
    else if is_absolute key
    then err absolute_key
    else if any (λ t. text_eq t parent) (parts key)
    then err parent_reference
    else ok key
