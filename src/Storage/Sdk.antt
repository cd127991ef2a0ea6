-- ===== src/Storage/Sdk.antt =====
-- The MinIO SDK as app/storage/minio_storage.py calls it, which failures are transient, and what a
-- method raises.
use documents_rag.Base.{
  ℕ, ◌≡◌, Bool, true, false, ◌||◌, List, [], ◌∷◌, Option, Result, ok, err, Text, codes, text_eq,
  any,
}
use documents_rag.External.{storage_unavailable}
use documents_rag.Storage.Failures.{Failure}

-- What a call of the SDK raises: an S3Error with its code, a MaxRetryError, or anything else.
pub data SdkError : Type 0 where
  s3_error : Text → SdkError
  max_retry : SdkError
  other_error : SdkError

pub record ObjectStat : Type 0 where
  pub size : Option ℕ
  pub content_type : Option Text
  pub etag : Option Text
  pub last_modified : Option ℕ

abbrev pub is_not_found : Text → Bool
is_not_found code = text_eq code (codes "NoSuchKey") || text_eq code (codes "NoSuchObject")

-- The calls of the SDK on the configured bucket.
pub record Client : Type 1 where
  pub State : Type 0
  pub bucket_exists : State → State × Result SdkError Bool
  pub make_bucket : State → State × Result SdkError (Unit {0})
  -- the etag of the stored object
  pub put_object : Text → List ℕ → Text → State → State × Result SdkError (Option Text)
  -- the response, of which `read` may raise
  pub get_object : Text → State → State × Result SdkError (Result SdkError (List ℕ))
  pub remove_object : Text → State → State × Result SdkError (Unit {0})
  pub stat_object : Text → State → State × Result SdkError ObjectStat
  pub presigned_get_object : Text → ℕ → State → State × Result SdkError Text
  pub holds : State → Text → Bool
  -- an upload that is answered has stored the object
  pub put-holds :
      (key : Text) (content : List ℕ) (kind : Text) (s : State) (etag : Option Text)
      → (put_object key content kind s).1 ≡ ok etag
      → holds (put_object key content kind s).0 key ≡ true
  -- a removal that is answered, or refused since there is no such object, leaves no object
  pub remove-holds :
      (key : Text) (s : State) (u : Unit {0})
      → (remove_object key s).1 ≡ ok u
      → holds (remove_object key s).0 key ≡ false
  pub remove-missing :
      (key : Text) (s : State) (code : Text)
      → (remove_object key s).1 ≡ err (s3_error code)
      → is_not_found code ≡ true
      → holds (remove_object key s).0 key ≡ false
  -- a stat changes no object and tells whether there is one
  pub stat-keeps : (key : Text) (s : State) (k : Text) → holds (stat_object key s).0 k ≡ holds s k
  pub stat-holds :
      (key : Text) (s : State) (found : ObjectStat)
      → (stat_object key s).1 ≡ ok found
      → holds s key ≡ true
  pub stat-missing :
      (key : Text) (s : State) (code : Text)
      → (stat_object key s).1 ≡ err (s3_error code)
      → is_not_found code ≡ true
      → holds s key ≡ false

unfoldable pub is_transient_minio_error : SdkError → Bool
is_transient_minio_error max_retry = true
is_transient_minio_error (s3_error code) =
    any (λ c. text_eq code c)
      (codes "ServiceUnavailable" ∷ codes "SlowDown" ∷ codes "InternalError" ∷ [])
is_transient_minio_error other_error = false

-- What a method raises: an error of the hierarchy, another exception of the SDK, or the
-- ValueError of the retry helper.
pub data MinioError : Type 0 where
  storage_error : Failure → MinioError
  sdk_error : SdkError → MinioError
  too_few : MinioError

-- `provider_retry_*` of the settings, and the random delays
pub record RetrySettings : Type 0 where
  pub max_attempts : ℕ
  pub base_delay : ℕ
  pub max_delay : ℕ
  pub draw : ℕ → ℕ → ℕ

abbrev pub as_minio : {A : Type 0} → Result Failure A → Result MinioError A
as_minio (ok a) = ok a
as_minio (err e) = err (storage_error e)

abbrev pub unreachable : Failure
unreachable = record { kind = storage_unavailable; message = codes "MinIO is unreachable." }
