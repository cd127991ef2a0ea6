-- ===== src/Storage/Minio/Answers.antt =====
-- What the answers of the retried SDK calls in app/storage/minio_storage.py say of the bucket.
use documents_rag.Base.{
  ℕ, zero, suc, ◌≡◌, ◌⊎◌, refl, ap, ◌∙◌, sym, Bool, true, false, List, Option, Result, ok, err,
  Text, inl, inr, if◌then◌else◌,
}
use mathlib.Core.Path.{subst}
use documents_rag.Core.Retry.{RetryError, Run, raised, too_few_attempts, lifted, retry_async}
use documents_rag.Core.Retry.Post.{retry_async-Returned}
use documents_rag.Storage.Failures.{Failure}
use documents_rag.Storage.Local.{StoredFile}
use documents_rag.Storage.Minio.{s3_error, retry_call, remove_answer, put_answer, stat_answer}
use documents_rag.Storage.Sdk.{
  SdkError, max_retry, other_error, ObjectStat, Client, MinioError, RetrySettings, is_not_found,
  is_transient_minio_error, as_minio, too_few,
}

-- A translated S3Error is an answer only if it says that there is no such object.
answered_missing :
    {A : Type 0} (missing : Bool) (instead : Result Failure A) (e : Failure) (a : A)
    → as_minio (if missing then instead else err e) ≡ ok a
    → (missing ≡ true) × (as_minio instead ≡ ok a)
answered_missing true instead e a h = (refl, h)
answered_missing false instead e a h = absurd (cc)

module _ (repr : Text → Text) (client : Client) (retries : RetrySettings) where
  -- a retried call was not tried at all, or returns what some call answered
  abbrev pub Retried :
      {A : Type 0}
      → (client.State → Result SdkError A → Type 0)
      → Run client.State SdkError A
      → Type 0
  Retried {A} Post run =
      (run.result ≡ err too_few_attempts)
      ⊎ ((answer : Result SdkError A) × (run.result ≡ lifted answer) × Post run.state answer)

  pub retry_call-Retried :
      {A : Type 0} (call : client.State → client.State × Result SdkError A)
      (Kept : client.State → Type 0) (Post : client.State → Result SdkError A → Type 0)
      (s : client.State)
      → ((t : client.State) → Kept t → Kept (call t).0 × Post (call t).0 (call t).1)
      → Kept s
      → Retried Post (retry_call repr client retries call s)
  unfolding retry_async
  retry_call-Retried {A} call Kept Post s step k = by_attempts retries.max_attempts
    where
      by_attempts :
          (n : ℕ)
          → Retried Post (
              retry_async call is_transient_minio_error retries.base_delay retries.max_delay
                retries.draw n s)
      by_attempts zero = inl refl
      by_attempts (suc more) = inr (
          retry_async-Returned call is_transient_minio_error retries.base_delay retries.max_delay
            retries.draw Kept Post more s step k)

  abbrev pub Gone : Text → client.State → Result SdkError (Unit {0}) → Type 0
  Gone key t (ok u) = client.holds t key ≡ false
  Gone key t (err (s3_error code)) = is_not_found code ≡ true → client.holds t key ≡ false
  Gone key t (err max_retry) = Unit {0}
  Gone key t (err other_error) = Unit {0}

  pub remove-Gone :
      (key : Text) (t : client.State) (answer : Result SdkError (Unit {0}))
      → (client.remove_object key t).1 ≡ answer
      → Gone key (client.remove_object key t).0 answer
  remove-Gone key t (ok u) h = client.remove-holds key t u h
  remove-Gone key t (err (s3_error code)) h = client.remove-missing key t code h
  remove-Gone key t (err max_retry) h = tt
  remove-Gone key t (err other_error) h = tt

  remove_ok :
      (key : Text) (t : client.State) (answer : Result SdkError (Unit {0})) (u : Unit {0})
      → Gone key t answer
      → remove_answer repr client retries key (lifted answer) ≡ ok u
      → client.holds t key ≡ false
  remove_ok key t (ok v) u gone h = gone
  remove_ok key t (err max_retry) u gone h = absurd (cc)
  remove_ok key t (err other_error) u gone h = absurd (cc)
  remove_ok key t (err (s3_error code)) u gone h =
      gone (answered_missing (is_not_found code) (ok tt) _ u h).0

  pub removed :
      (key : Text) (run : Run client.State SdkError (Unit {0})) (u : Unit {0})
      → Retried (Gone key) run
      → remove_answer repr client retries key run.result ≡ ok u
      → client.holds run.state key ≡ false
  removed key run u (inl none_tried) h =
      absurd (never (subst (λ r. remove_answer repr client retries key r ≡ ok u) none_tried h))
    where
      never : ◌≡◌ {A = Result MinioError (Unit {0})} (err too_few) (ok u) → ⊥
      never q = cc
  removed key run u (inr (answer, q, gone)) h =
      remove_ok key run.state answer u gone
        (subst (λ r. remove_answer repr client retries key r ≡ ok u) q h)

  abbrev pub Stored : Text → client.State → Result SdkError (Option Text) → Type 0
  Stored key t (ok etag) = client.holds t key ≡ true
  Stored key t (err e) = Unit {0}

  pub put-Stored :
      (key : Text) (content : List ℕ) (kind : Text) (t : client.State)
      (answer : Result SdkError (Option Text))
      → (client.put_object key content kind t).1 ≡ answer
      → Stored key (client.put_object key content kind t).0 answer
  put-Stored key content kind t (ok etag) h = client.put-holds key content kind t etag h
  put-Stored key content kind t (err e) h = tt

  pub stored :
      (key : Text) (content : List ℕ) (content_type : Option Text)
      (run : Run client.State SdkError (Option Text)) (file : StoredFile)
      → Retried (Stored key) run
      → put_answer repr client retries key content content_type run.result ≡ ok file
      → client.holds run.state key ≡ true
  stored key content content_type run file (inl none_tried) h = absurd (
      never (
        subst (λ r. put_answer repr client retries key content content_type r ≡ ok file) none_tried
          h))
    where
      never : ◌≡◌ {A = Result MinioError StoredFile} (err too_few) (ok file) → ⊥
      never q = cc
  stored key content content_type run file (inr (ok etag, q, there)) h = there
  stored key content content_type run file (inr (err e, q, there)) h = absurd (
      never e
        (subst (λ r. put_answer repr client retries key content content_type r ≡ ok file) q h))
    where
      never :
          (x : SdkError)
          → put_answer repr client retries key content content_type (err (raised x)) ≡ ok file
          → ⊥
      never (s3_error code) g = cc
      never max_retry g = cc
      never other_error g = cc

  -- a stat tells of the state before it
  abbrev pub Told : Text → client.State → client.State → Result SdkError ObjectStat → Type 0
  Told key s t (ok found) = client.holds s key ≡ true
  Told key s t (err (s3_error code)) = is_not_found code ≡ true → client.holds s key ≡ false
  Told key s t (err max_retry) = Unit {0}
  Told key s t (err other_error) = Unit {0}

  pub stat-Told :
      (key : Text) (s t : client.State) (answer : Result SdkError ObjectStat)
      → client.holds t key ≡ client.holds s key
      → (client.stat_object key t).1 ≡ answer
      → Told key s (client.stat_object key t).0 answer
  stat-Told key s t (ok found) same h = sym same ∙ client.stat-holds key t found h
  stat-Told key s t (err (s3_error code)) same h =
      λ missing. sym same ∙ client.stat-missing key t code h missing
  stat-Told key s t (err max_retry) same h = tt
  stat-Told key s t (err other_error) same h = tt

  told :
      (key : Text) (s t : client.State) (answer : Result SdkError ObjectStat) (b : Bool)
      → Told key s t answer
      → stat_answer repr client retries key (lifted answer) ≡ ok b
      → client.holds s key ≡ b
  told key s t (ok found) b h q = h ∙ value q
    where
      value : ◌≡◌ {A = Result MinioError Bool} (ok true) (ok b) → true ≡ b
      value g = cc
  told key s t (err max_retry) b h q = absurd (cc)
  told key s t (err other_error) b h q = absurd (cc)
  told key s t (err (s3_error code)) b h q =
      let (missing, answer) = answered_missing (is_not_found code) (ok false) _ b q in
      h missing ∙ value answer
    where
      value : ◌≡◌ {A = Result MinioError Bool} (ok false) (ok b) → false ≡ b
      value g = cc

  pub put_key :
      (key : Text) (content : List ℕ) (content_type : Option Text)
      (r : Result (RetryError SdkError) (Option Text)) (file : StoredFile)
      → put_answer repr client retries key content content_type r ≡ ok file
      → file.key ≡ key
  put_key key content content_type (ok etag) file h = sym (ap (key_or key) h)
    where
      key_or : Text → Result MinioError StoredFile → Text
      key_or k (ok x) = x.key
      key_or k (err e) = k
  put_key key content content_type (err too_few_attempts) file h = absurd (cc)
  put_key key content content_type (err (raised (s3_error code))) file h = absurd (cc)
  put_key key content content_type (err (raised max_retry)) file h = absurd (cc)
  put_key key content content_type (err (raised other_error)) file h = absurd (cc)

  pub stat_retried :
      (key : Text) (s : client.State) (run : Run client.State SdkError ObjectStat) (b : Bool)
      → Retried (Told key s) run
      → stat_answer repr client retries key run.result ≡ ok b
      → client.holds s key ≡ b
  stat_retried key s run b (inl none_tried) h =
      absurd (never (subst (λ r. stat_answer repr client retries key r ≡ ok b) none_tried h))
    where
      never : ◌≡◌ {A = Result MinioError Bool} (err too_few) (ok b) → ⊥
      never q = cc
  stat_retried key s run b (inr (answer, q, telling)) h =
      told key s run.state answer b telling
        (subst (λ r. stat_answer repr client retries key r ≡ ok b) q h)
