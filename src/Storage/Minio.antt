-- ===== src/Storage/Minio.antt =====
-- app/storage/minio_storage.py over the calls of the MinIO SDK.
pub mod Answers
pub mod Laws
use documents_rag.Base.{
  ℕ, zero, suc, ◌≡◌, Bool, true, false, not, ◌||◌, List, [], ◌∷◌, ◌++◌, Option, none, some, Result,
  ok, err, Text, codes, text_eq, any, length, if◌then◌else◌, is_none, is_some,
}
use documents_rag.Core.Retry.{RetryError, Run, raised, too_few_attempts, retry_async}
use documents_rag.External.{
  StorageError, storage_unavailable, object_not_found, write_failed, read_failed, delete_failed,
  metadata_failed, invalid_configuration, url_generation_failed,
}
use documents_rag.Storage.Failures.{Failure, key_failure, failure_at}
use documents_rag.Storage.Keys.{KeyError, validate_object_key}
use documents_rag.Storage.Local.{StoredFile, FileMetadata}
use documents_rag.Storage.Sdk.{
  Client, MinioError, ObjectStat, RetrySettings, SdkError, as_minio, is_not_found,
  is_transient_minio_error, max_retry, other_error, sdk_error, storage_error, too_few, unreachable,
  s3_error,
}

module _ (repr : Text → Text) (client : Client) (retries : RetrySettings) where
  open client use {
    State, bucket_exists, make_bucket, put_object, get_object, remove_object, stat_object,
    presigned_get_object,
  }

  -- `_retry_call`, and `_call_sdk`
  abbrev pub retry_call :
      {A : Type 0} → (State → State × Result SdkError A) → State → Run State SdkError A
  retry_call call s =
      retry_async call is_transient_minio_error retries.base_delay retries.max_delay retries.draw
        retries.max_attempts s

  -- the call of `validate_object_key` in front of a method
  abbrev pub checked :
      {A : Type 0}
      → Text
      → State
      → Result KeyError Text
      → State × Result MinioError A
      → State × Result MinioError A
  checked key s (err e) rest = (s, err (storage_error (key_failure repr key e)))
  checked key s (ok k) rest = rest

  -- the except clauses of a method, by what they answer to an S3Error and to a MaxRetryError
  abbrev pub translated :
      {A : Type 0} → (Text → Result Failure A) → Failure → RetryError SdkError → Result MinioError A
  translated on_code on_unreachable too_few_attempts = err too_few
  translated on_code on_unreachable (raised max_retry) = err (storage_error on_unreachable)
  translated on_code on_unreachable (raised other_error) = err (sdk_error other_error)
  translated on_code on_unreachable (raised (s3_error code)) = as_minio (on_code code)

  abbrev pub on_missing : {A : Type 0} → Text → Result Failure A → Failure → Text → Result Failure A
  on_missing key missing otherwise code = if is_not_found code then missing else err otherwise

  abbrev pub not_found_at : Text → Failure
  not_found_at key = failure_at repr object_not_found (codes "No object found at key ") key

  abbrev pub kind_or_default : Option Text → Text
  kind_or_default none = codes "application/octet-stream"
  kind_or_default (some []) = codes "application/octet-stream"
  kind_or_default (some (c ∷ cs)) = c ∷ cs

  abbrev pub put_answer :
      Text
      → List ℕ
      → Option Text
      → Result (RetryError SdkError) (Option Text)
      → Result MinioError StoredFile
  put_answer key content content_type (ok etag) =
      ok (record {
        key = key;
        size_bytes = length content;
        content_type = content_type;
        etag = etag;
      })
  put_answer key content content_type (err e) =
      let failed = failure_at repr write_failed (codes "Failed to write object at key ") key in
      translated (λ code. err failed) failed e

  abbrev pub after_put :
      Text
      → List ℕ
      → Option Text
      → Run State SdkError (Option Text)
      → State × Result MinioError StoredFile
  after_put key content content_type run =
      (run.state, put_answer key content content_type run.result)

  unfoldable pub save : Text → List ℕ → Option Text → State → State × Result MinioError StoredFile
  save key content content_type s = checked key s (validate_object_key key) (
      after_put key content content_type
        (retry_call (put_object key content (kind_or_default content_type)) s))

  abbrev pub read_response : Text → Result SdkError (List ℕ) → Result MinioError (List ℕ)
  read_response key (ok content) = ok content
  read_response key (err e) =
      translated
        (on_missing key (err (not_found_at key))
          (failure_at repr read_failed (codes "Failed to read object at key ") key))
        unreachable (raised e)

  abbrev pub get_answer :
      Text → Result (RetryError SdkError) (Result SdkError (List ℕ)) → Result MinioError (List ℕ)
  get_answer key (ok response) = read_response key response
  get_answer key (err e) =
      translated
        (on_missing key (err (not_found_at key))
          (failure_at repr read_failed (codes "Failed to read object at key ") key))
        unreachable e

  abbrev pub after_get :
      Text → Run State SdkError (Result SdkError (List ℕ)) → State × Result MinioError (List ℕ)
  after_get key run = (run.state, get_answer key run.result)

  unfoldable pub read : Text → State → State × Result MinioError (List ℕ)
  read key s =
      checked key s (validate_object_key key) (after_get key (retry_call (get_object key) s))

  abbrev pub remove_answer :
      Text → Result (RetryError SdkError) (Unit {0}) → Result MinioError (Unit {0})
  remove_answer key (ok u) = ok tt
  remove_answer key (err e) =
      translated
        (on_missing key (ok tt)
          (failure_at repr delete_failed (codes "Failed to delete object at key ") key))
        unreachable e

  abbrev pub after_remove :
      Text → Run State SdkError (Unit {0}) → State × Result MinioError (Unit {0})
  after_remove key run = (run.state, remove_answer key run.result)

  unfoldable pub delete : Text → State → State × Result MinioError (Unit {0})
  delete key s =
      checked key s (validate_object_key key) (after_remove key (retry_call (remove_object key) s))

  abbrev pub stat_answer : Text → Result (RetryError SdkError) ObjectStat → Result MinioError Bool
  stat_answer key (ok found) = ok true
  stat_answer key (err e) =
      translated
        (on_missing key (ok false)
          (failure_at repr metadata_failed (codes "Failed to check existence of key ") key))
        unreachable e

  abbrev pub after_stat : Text → Run State SdkError ObjectStat → State × Result MinioError Bool
  after_stat key run = (run.state, stat_answer key run.result)

  unfoldable pub exists : Text → State → State × Result MinioError Bool
  exists key s =
      checked key s (validate_object_key key) (after_stat key (retry_call (stat_object key) s))

  abbrev pub size_or_zero : Option ℕ → ℕ
  size_or_zero none = 0
  size_or_zero (some n) = n

  abbrev pub metadata_answer :
      Text → Result (RetryError SdkError) ObjectStat → Result MinioError FileMetadata
  metadata_answer key (ok found) = ok (record {
    key = key;
    size_bytes = size_or_zero found.size;
    content_type = found.content_type;
    etag = found.etag;
    last_modified = found.last_modified;
  })
  metadata_answer key (err e) =
      translated
        (on_missing key (err (not_found_at key))
          (failure_at repr metadata_failed (codes "Failed to stat object at key ") key))
        unreachable e

  abbrev pub after_metadata :
      Text → Run State SdkError ObjectStat → State × Result MinioError FileMetadata
  after_metadata key run = (run.state, metadata_answer key run.result)

  unfoldable pub get_metadata : Text → State → State × Result MinioError FileMetadata
  get_metadata key s =
      checked key s (validate_object_key key) (after_metadata key (retry_call (stat_object key) s))

  abbrev pub url_answer : Text → Result (RetryError SdkError) Text → Result MinioError Text
  url_answer key (ok url) = ok url
  url_answer key (err e) =
      let failed =
        failure_at repr url_generation_failed (codes "Failed to generate a download URL for key ")
          key in
      translated (λ code. err failed) failed e

  abbrev pub after_url : Text → Run State SdkError Text → State × Result MinioError Text
  after_url key run = (run.state, url_answer key run.result)

  -- `expiry_seconds or self._expiry_seconds`
  abbrev pub expiry_or : ℕ → Option ℕ → ℕ
  expiry_or default none = default
  expiry_or default (some zero) = default
  expiry_or default (some (suc n)) = suc n

  unfoldable pub generate_download_url :
      ℕ → Text → Option ℕ → State → State × Result MinioError Text
  generate_download_url expiry_seconds key expiry s =
      checked key s (validate_object_key key)
        (after_url key (retry_call (presigned_get_object key (expiry_or expiry_seconds expiry)) s))

  abbrev pub is_taken : Text → Bool
  is_taken code =
      text_eq code (codes "BucketAlreadyOwnedByYou") || text_eq code (codes "BucketAlreadyExists")

  abbrev pub on_taken : Text → Result Failure (Unit {0})
  on_taken code =
      if is_taken code
      then ok tt
      else err (record {
        kind = storage_unavailable;
        message = codes "MinIO bucket initialization failed.";
      })

  abbrev pub after_make : Run State SdkError (Unit {0}) → State × Result MinioError (Unit {0})
  after_make run =
      (run.state, elim run.result [ ok u ↦ ok tt | err e ↦ translated on_taken unreachable e ])

  abbrev pub no_bucket : Text → Failure
  no_bucket bucket = record {
    kind = invalid_configuration;
    message =
        codes "MinIO bucket "
        ++ (repr bucket ++ codes " does not exist and MINIO_CREATE_BUCKET_IF_MISSING is false.");
  }

  abbrev pub after_bucket :
      Text → Bool → Run State SdkError Bool → State × Result MinioError (Unit {0})
  after_bucket bucket create_if_missing run = elim run.result [
    | err e ↦ (run.state, translated on_taken unreachable e)
    | ok there ↦
        if there
        then (run.state, ok tt)
        else if not create_if_missing
        then (run.state, err (storage_error (no_bucket bucket)))
        else after_make (retry_call make_bucket run.state)
  ]

  unfoldable pub ensure_bucket : Text → Bool → State → State × Result MinioError (Unit {0})
  ensure_bucket bucket create_if_missing s =
      after_bucket bucket create_if_missing (retry_call bucket_exists s)
