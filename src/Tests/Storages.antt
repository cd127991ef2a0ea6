-- ===== src/Tests/Storages.antt =====
-- A disk that maps paths to contents, a bucket that is a list of keys, and a call that answers at
-- its third attempt.
use documents_rag.Base.{
  ℕ, suc, ◌≡◌, refl, ap, Bool, true, false, not, ltb, ◌==◌, ◌&&◌, List, [], ◌∷◌, Option, none, some,
  Result, ok, err, Text, codes, text_eq, text_eq_iff, any, select, arith, is_some, if◌then◌else◌,
}
use documents_rag.Core.Retry.{retry_async}
use documents_rag.Core.Retry.Outcomes.{IsRetried, retry_async-IsRetried}
use documents_rag.Storage.Local.{FilePath, FileSystem, save, read, exists_key, StoredFile}
use documents_rag.Storage.Local.Laws.{read-save}
use documents_rag.Storage.Minio
use documents_rag.Storage.Sdk.{Client, RetrySettings, SdkError, s3_error, ObjectStat}
use documents_rag.Storage.Minio.Laws.{Deletes, Saves, Tells, minio-promises}
use documents_rag.Tests.Stores.{any-reject}

unfoldable path_eq : FilePath → FilePath → Bool
path_eq [] [] = true
path_eq [] (u ∷ us) = false
path_eq (t ∷ ts) [] = false
path_eq (t ∷ ts) (u ∷ us) = text_eq t u && path_eq ts us

path_eq_refl : (p : FilePath) → path_eq p p ≡ true
unfolding path_eq
path_eq_refl [] = refl
path_eq_refl (t ∷ ts) = ground (arith, path_eq_refl ts, (text_eq_iff t t).1 refl)

abbrev Disk : Type 0
Disk = FilePath → Option (List ℕ)

abbrev put : FilePath → Option (List ℕ) → Disk → Disk
put p content s q = if path_eq q p then content else s q

put_there : (p : FilePath) (content : Option (List ℕ)) (s : Disk) → put p content s p ≡ content
put_there p content s = rw (path_eq_refl p) refl

abbrev option_or {ℓ} : {A : Type ℓ} → A → Option A → A
option_or a none = a
option_or a (some b) = b

abbrev disk : FileSystem
disk = record {
  State = Disk;
  make_parents = λ p s. (s, false);
  write_bytes = λ p content s. (put p (some content) s, false);
  read_bytes = λ p s. s p;
  unlink = λ p s. (put p none s, false);
  exists = λ p s. some (is_some (s p));
  stat = λ p s. none;
  as_uri = λ p. none;
  is_there = λ s p. is_some (s p);
  write-there = λ p content s e. ap is_some (put_there p (some content) s);
  write-read = λ p content s e. put_there p (some content) s;
  unlink-there = λ p s e. ap is_some (put_there p none s);
  exists-there = λ p s b e. ap (option_or false) e;
}

read-save_example :
    (read
        (λ t. t)
        disk
        (codes "a/b")
        (save (λ t. t) disk (codes "a/b") (1 ∷ 2 ∷ []) none (λ p. none)).0
      ≡ ok (1 ∷ 2 ∷ []))
    × (exists_key
          (λ t. t)
          disk
          (codes "a/b")
          (save (λ t. t) disk (codes "a/b") (1 ∷ 2 ∷ []) none (λ p. none)).0
        ≡ ok true)
unfolding save documents_rag.Storage.Local.resolve documents_rag.Storage.Keys.validate_object_key
    text_eq
read-save_example =
    read-save (λ t. t) disk (codes "a/b") (1 ∷ 2 ∷ []) none (λ p. none)
      (record { key = codes "a/b"; size_bytes = 2; content_type = none; etag = none }) refl
      (λ p t. refl)

abbrev at_key : Text → Text → Bool
at_key key k = text_eq k key

first_key : (key : Text) (s : List Text) → any (at_key key) (key ∷ s) ≡ true
first_key key s = ground (arith, (text_eq_iff key key).1 refl)

abbrev stat_of : Bool → Result SdkError ObjectStat
stat_of true = ok (record { size = none; content_type = none; etag = none; last_modified = none })
stat_of false = err (s3_error (codes "NoSuchKey"))

stat_found : (b : Bool) (found : ObjectStat) → stat_of b ≡ ok found → b ≡ true
stat_found true found e = refl
stat_found false found e = absurd (cc)

stat_missing : (b : Bool) (code : Text) → stat_of b ≡ err (s3_error code) → b ≡ false
stat_missing true code e = absurd (cc)
stat_missing false code e = refl

abbrev bucket : Client
bucket = record {
  State = List Text;
  bucket_exists = λ s. (s, ok true);
  make_bucket = λ s. (s, ok tt);
  put_object = λ key content kind s. (key ∷ s, ok none);
  get_object = λ key s. (s, ok (ok []));
  remove_object = λ key s. (select (λ k. not (at_key key k)) s, ok tt);
  stat_object = λ key s. (s, stat_of (any (at_key key) s));
  presigned_get_object = λ key expiry s. (s, ok key);
  holds = λ s key. any (at_key key) s;
  put-holds = λ key content kind s etag e. first_key key s;
  remove-holds = λ key s u e. any-reject (at_key key) s;
  remove-missing = λ key s code e missing. any-reject (at_key key) s;
  stat-keeps = λ key s k. refl;
  stat-holds = λ key s found e. stat_found (any (at_key key) s) found e;
  stat-missing = λ key s code e missing. stat_missing (any (at_key key) s) code e;
}

abbrev retries : RetrySettings
retries = record { max_attempts = 3; base_delay = 1; max_delay = 8; draw = λ n d. d }

minio-promises_example :
    Deletes
      (λ t. t)
      bucket
      retries
      (codes "a/b")
      []
      (Minio.delete (λ t. t) bucket retries (codes "a/b") [])
    × Saves
        (λ t. t)
        bucket
        retries
        (codes "a/b")
        (Minio.save (λ t. t) bucket retries (codes "a/b") (1 ∷ []) none [])
    × Tells
        (λ t. t)
        bucket
        retries
        (codes "a/b")
        []
        (Minio.exists (λ t. t) bucket retries (codes "a/b") [])
minio-promises_example = minio-promises (λ t. t) bucket retries (codes "a/b") (1 ∷ []) none []

abbrev third_time : ℕ → ℕ × Result ℕ ℕ
third_time s = (suc s, if ltb s 2 then err 0 else ok s)

abbrev is_zero : ℕ → Bool
is_zero e = e == 0

abbrev whole : ℕ → ℕ → ℕ
whole n d = d

retry_async-IsRetried_example :
    IsRetried ℕ ℕ ℕ is_zero 1 8 0 5 (retry_async third_time is_zero 1 8 whole 5 0)
retry_async-IsRetried_example =
    retry_async-IsRetried third_time is_zero 1 8 whole 4 0 (λ n d. ground arith)
