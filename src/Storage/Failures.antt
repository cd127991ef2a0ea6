-- ===== src/Storage/Failures.antt =====
-- The errors of app/storage/errors.py as the adapters raise them: a class with its message.
use documents_rag.Base.{◌++◌, Option, none, some, Result, ok, err, Text, codes}
use documents_rag.External.{StorageError, unsafe_key, StorageRaised, translated}
use documents_rag.Storage.Keys.{KeyError, empty_key, absolute_key, parent_reference}

pub record Failure : Type 0 where
  pub kind : StorageError
  pub message : Text

module _ (repr : Text → Text) where
  -- the messages of `validate_object_key`
  unfoldable pub key_message : Text → KeyError → Text
  key_message key empty_key = codes "Object key must not be empty."
  key_message key absolute_key = codes "Object key must not be an absolute path: " ++ repr key
  key_message key parent_reference = codes "Object key must not contain '..': " ++ repr key

  abbrev pub key_failure : Text → KeyError → Failure
  key_failure key e = record { kind = unsafe_key; message = key_message key e }

  -- `f"{text}{key!r}"`
  abbrev pub failure_at : StorageError → Text → Text → Failure
  failure_at kind text key = record { kind = kind; message = text ++ repr key }

-- what a caller sees of a result
abbrev pub messages {ℓ} : {A : Type ℓ} → Result Failure A → Result Text A
messages (ok a) = ok a
messages (err e) = err e.message

abbrev pub kinds {ℓ} : {A : Type ℓ} → Result Failure A → Result StorageError A
kinds (ok a) = ok a
kinds (err e) = err e.kind

abbrev pub raised_of : Option Failure → Option StorageRaised
raised_of none = none
raised_of (some e) = some (translated e.message)
