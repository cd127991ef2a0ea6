-- ===== src/Storage/Local.antt =====
-- app/storage/local_storage.py over a file system. A path is the list of its parts under the root;
-- without symbolic links `resolve` leaves it there, so that `relative_to` never fails.
pub mod Laws
use documents_rag.Base.{
  ℕ, ◌≡◌, ◌≢◌, Bool, true, false, List, [], ◌∷◌, ◌++◌, Option, none, some, Result, ok, err, Text,
  codes, length, if◌then◌else◌,
}
use documents_rag.External.{
  StorageError, unsafe_key, write_failed, read_failed, delete_failed, metadata_failed,
  object_not_found, url_generation_failed,
}
use documents_rag.Storage.Failures.{Failure, key_failure, failure_at}
use documents_rag.Storage.Keys.{KeyError, validate_object_key, parts}

abbrev pub FilePath : Type 0
FilePath = List Text

-- The calls of pathlib; `true`, and `none`, where one raises an OSError.
pub record FileSystem : Type 1 where
  pub State : Type 0
  -- `path.parent.mkdir(parents=True, exist_ok=True)`
  pub make_parents : FilePath → State → State × Bool
  pub write_bytes : FilePath → List ℕ → State → State × Bool
  pub read_bytes : FilePath → State → Option (List ℕ)
  -- `path.unlink(missing_ok=True)`
  pub unlink : FilePath → State → State × Bool
  pub exists : FilePath → State → Option Bool
  -- size and modification time
  pub stat : FilePath → State → Option (ℕ × ℕ)
  -- `none` where it raises a ValueError
  pub as_uri : FilePath → Option Text
  pub is_there : State → FilePath → Bool
  -- a write that does not raise leaves the file with its content
  pub write-there :
      (p : FilePath) (content : List ℕ) (s : State)
      → (write_bytes p content s).1 ≡ false
      → is_there (write_bytes p content s).0 p ≡ true
  pub write-read :
      (p : FilePath) (content : List ℕ) (s : State)
      → (write_bytes p content s).1 ≡ false
      → read_bytes p (write_bytes p content s).0 ≡ some content
  -- an unlink that does not raise leaves no file
  pub unlink-there :
      (p : FilePath) (s : State) → (unlink p s).1 ≡ false → is_there (unlink p s).0 p ≡ false
  pub exists-there : (p : FilePath) (s : State) (b : Bool) → exists p s ≡ some b → is_there s p ≡ b

pub record StoredFile : Type 0 where
  pub key : Text
  pub size_bytes : ℕ
  pub content_type : Option Text
  pub etag : Option Text

pub record FileMetadata : Type 0 where
  pub key : Text
  pub size_bytes : ℕ
  pub content_type : Option Text
  pub etag : Option Text
  pub last_modified : Option ℕ

-- What a method raises: an error of the hierarchy, or an OSError that it lets through.
pub data LocalError : Type 0 where
  storage_error : Failure → LocalError
  os_error : LocalError

abbrev pub not_found_text : Text
not_found_text = codes "No object found at key "

module _ (repr : Text → Text) (fs : FileSystem) where
  open fs use {State, make_parents, write_bytes, read_bytes, unlink, exists, stat, as_uri}

  abbrev pub resolved : Text → Result KeyError Text → Result Failure FilePath
  resolved key (err e) = err (key_failure repr key e)
  resolved key (ok k) = ok (parts k)

  -- `_resolve`
  unfoldable pub resolve : Text → Result Failure FilePath
  resolve key = resolved key (validate_object_key key)

  abbrev pub after_parents : FilePath → List ℕ → State × Bool → State × Bool
  after_parents path content (s, true) = (s, true)
  after_parents path content (s, false) = write_bytes path content s

  -- `_write_bytes`
  unfoldable pub write_file : FilePath → List ℕ → State → State × Bool
  write_file path content s = after_parents path content (make_parents path s)

  abbrev pub saved : Text → List ℕ → Option Text → State × Bool → State × Result Failure StoredFile
  saved key content content_type (s, true) =
      (s, err (failure_at repr write_failed (codes "Failed to write object at key ") key))
  saved key content content_type (s, false) = (
    s,
    ok (record {
      key = key;
      size_bytes = length content;
      content_type = content_type;
      etag = none;
    }),
  )

  abbrev pub save_at :
      Text
      → List ℕ
      → Option Text
      → State
      → Result Failure FilePath
      → State × Result Failure StoredFile
  save_at key content content_type s (err e) = (s, err e)
  save_at key content content_type s (ok path) =
      saved key content content_type (write_file path content s)

  unfoldable pub save : Text → List ℕ → Option Text → State → State × Result Failure StoredFile
  unfolding write_file
  save key content content_type s = save_at key content content_type s (resolve key)

  -- the check of `path.exists()` in front of a read, outside its try
  abbrev pub if_exists {ℓ} :
      {A : Type ℓ} → Text → Option Bool → Result LocalError A → Result LocalError A
  if_exists key none rest = err os_error
  if_exists key (some there) rest =
      if there
      then rest
      else err (storage_error (failure_at repr object_not_found not_found_text key))

  abbrev pub bytes_of : Text → Option (List ℕ) → Result LocalError (List ℕ)
  bytes_of key none =
      err (storage_error (failure_at repr read_failed (codes "Failed to read object at key ") key))
  bytes_of key (some content) = ok content

  abbrev pub read_at : Text → State → Result Failure FilePath → Result LocalError (List ℕ)
  read_at key s (err e) = err (storage_error e)
  read_at key s (ok path) = if_exists key (exists path s) (bytes_of key (read_bytes path s))

  unfoldable pub read : Text → State → Result LocalError (List ℕ)
  read key s = read_at key s (resolve key)

  abbrev pub deleted : Text → State × Bool → State × Option Failure
  deleted key (s, true) =
      (s, some (failure_at repr delete_failed (codes "Failed to delete object at key ") key))
  deleted key (s, false) = (s, none)

  abbrev pub delete_at : Text → State → Result Failure FilePath → State × Option Failure
  delete_at key s (err e) = (s, some e)
  delete_at key s (ok path) = deleted key (unlink path s)

  unfoldable pub delete : Text → State → State × Option Failure
  delete key s = delete_at key s (resolve key)

  abbrev pub existence : Text → Option Bool → Result Failure Bool
  existence key none =
      err (failure_at repr metadata_failed (codes "Failed to check existence of key ") key)
  existence key (some there) = ok there

  abbrev pub exists_at : Text → State → Result Failure FilePath → Result Failure Bool
  exists_at key s (err e) = err e
  exists_at key s (ok path) = existence key (exists path s)

  unfoldable pub exists_key : Text → State → Result Failure Bool
  exists_key key s = exists_at key s (resolve key)

  abbrev pub metadata_of : Text → Option (ℕ × ℕ) → Result LocalError FileMetadata
  metadata_of key none =
      err (
        storage_error (failure_at repr metadata_failed (codes "Failed to stat object at key ") key))
  metadata_of key (some (size, modified)) = ok (record {
    key = key;
    size_bytes = size;
    content_type = none;
    etag = none;
    last_modified = some modified;
  })

  abbrev pub metadata_at : Text → State → Result Failure FilePath → Result LocalError FileMetadata
  metadata_at key s (err e) = err (storage_error e)
  metadata_at key s (ok path) = if_exists key (exists path s) (metadata_of key (stat path s))

  unfoldable pub get_metadata : Text → State → Result LocalError FileMetadata
  get_metadata key s = metadata_at key s (resolve key)

  abbrev pub uri_of : Text → Option Text → Result LocalError Text
  uri_of key none = err (
      storage_error
        (failure_at repr url_generation_failed (codes "Failed to generate a URL for key ") key))
  uri_of key (some uri) = ok uri

  abbrev pub url_at : Text → State → Result Failure FilePath → Result LocalError Text
  url_at key s (err e) = err (storage_error e)
  url_at key s (ok path) = if_exists key (exists path s) (uri_of key (as_uri path))

  unfoldable pub generate_download_url : Text → State → Result LocalError Text
  generate_download_url key s = url_at key s (resolve key)
