-- ===== src/Storage/Minio/Laws.antt =====
-- app/storage/minio_storage.py keeps the promises of the storage interface through its retries.
use documents_rag.Base.{ℕ, ◌≡◌, refl, ◌∙◌, Bool, true, false, List, Option, Result, ok, err, Text}
use documents_rag.Core.Retry.{Run}
use documents_rag.Storage.Keys.{KeyError, validate_object_key}
use documents_rag.Storage.Local.{StoredFile}
use documents_rag.Storage.Minio.{
  checked, retry_call, remove_answer, put_answer, stat_answer, after_put, save, after_remove,
  delete, after_stat, exists, kind_or_default,
}
use documents_rag.Storage.Sdk.{SdkError, ObjectStat, Client, MinioError, RetrySettings}
use documents_rag.Storage.Minio.Answers.{
  retry_call-Retried, Gone, remove-Gone, removed, Stored, put-Stored, stored, Told, stat-Told,
  put_key, stat_retried,
}

module _ (repr : Text → Text) (client : Client) (retries : RetrySettings) where
  abbrev pub Deletes : Text → client.State → client.State × Result MinioError (Unit {0}) → Type 0
  Deletes key s (t, ok u) = client.holds t key ≡ false
  Deletes key s (t, err e) = Unit {0}

  abbrev pub Saves : Text → client.State × Result MinioError StoredFile → Type 0
  Saves key (t, ok file) = (client.holds t key ≡ true) × (file.key ≡ key)
  Saves key (t, err e) = Unit {0}

  abbrev pub Tells : Text → client.State → client.State × Result MinioError Bool → Type 0
  Tells key s (t, ok there) = client.holds s key ≡ there
  Tells key s (t, err e) = Unit {0}

  deletes :
      (key : Text) (s : client.State) (v : Result KeyError Text)
      → Deletes key s (
          checked repr client retries key s v (
            after_remove repr client retries key
              (retry_call repr client retries (client.remove_object key) s)))
  deletes key s (err e) = tt
  deletes key s (ok k) = by_answer (remove_answer repr client retries key run.result) refl
    where
      run : Run client.State SdkError (Unit {0})
      run = retry_call repr client retries (client.remove_object key) s

      by_answer :
          (a : Result MinioError (Unit {0}))
          → remove_answer repr client retries key run.result ≡ a
          → Deletes key s (run.state, a)
      by_answer (err e) h = tt
      by_answer (ok u) h =
          removed repr client retries key run u
            (retry_call-Retried repr client retries (client.remove_object key) (λ t. Unit {0})
              (Gone repr client retries key) s
              (λ t k.
                (tt, remove-Gone repr client retries key t (client.remove_object key t).1 refl))
              tt)
            h

  saves :
      (key : Text) (content : List ℕ) (content_type : Option Text) (s : client.State)
      (v : Result KeyError Text)
      → Saves key (
          checked repr client retries key s v (
            after_put repr client retries key content content_type (
              retry_call repr client retries
                (client.put_object key content (kind_or_default repr client retries content_type))
                s)))
  saves key content content_type s (err e) = tt
  saves key content content_type s (ok k) =
      by_answer (put_answer repr client retries key content content_type run.result) refl
    where
      kind : Text
      kind = kind_or_default repr client retries content_type

      run : Run client.State SdkError (Option Text)
      run = retry_call repr client retries (client.put_object key content kind) s

      by_answer :
          (a : Result MinioError StoredFile)
          → put_answer repr client retries key content content_type run.result ≡ a
          → Saves key (run.state, a)
      by_answer (err e) h = tt
      by_answer (ok file) h = (
        stored repr client retries key content content_type run file
            (retry_call-Retried repr client retries (client.put_object key content kind)
              (λ t. Unit {0}) (Stored repr client retries key) s
              (λ t k. (
                tt,
                put-Stored repr client retries key content kind t
                    (client.put_object key content kind t).1 refl,
              ))
              tt)
            h,
        put_key repr client retries key content content_type run.result file h,
      )

  tells :
      (key : Text) (s : client.State) (v : Result KeyError Text)
      → Tells key s (
          checked repr client retries key s v (
            after_stat repr client retries key
              (retry_call repr client retries (client.stat_object key) s)))
  tells key s (err e) = tt
  tells key s (ok k) = by_answer (stat_answer repr client retries key run.result) refl
    where
      run : Run client.State SdkError ObjectStat
      run = retry_call repr client retries (client.stat_object key) s

      by_answer :
          (a : Result MinioError Bool)
          → stat_answer repr client retries key run.result ≡ a
          → Tells key s (run.state, a)
      by_answer (err e) h = tt
      by_answer (ok b) h =
          stat_retried repr client retries key s run b
            (retry_call-Retried repr client retries (client.stat_object key)
              (λ t. client.holds t key ≡ client.holds s key) (Told repr client retries key s) s
              (λ t same. (
                client.stat-keeps key t key ∙ same,
                stat-Told repr client retries key s t (client.stat_object key t).1 same refl,
              ))
              refl)
            h

  -- A deletion by MinioFileStorage that raises nothing leaves no object at its key, an upload that
  -- raises nothing leaves one, and an existence check that raises nothing tells whether one was
  -- there, however often the SDK's calls are retried on the way.
  pub minio-promises :
      (key : Text) (content : List ℕ) (content_type : Option Text) (s : client.State)
      → Deletes key s (delete repr client retries key s)
        × Saves key (save repr client retries key content content_type s)
        × Tells key s (exists repr client retries key s)
  unfolding delete save exists
  minio-promises key content content_type s = (
    deletes key s (validate_object_key key),
    saves key content content_type s (validate_object_key key),
    tells key s (validate_object_key key),
  )
