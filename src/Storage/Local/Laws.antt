-- ===== src/Storage/Local/Laws.antt =====
-- app/storage/local_storage.py implements the storage interface, and reads back what it saved.
use documents_rag.Base.{
  ℕ, ◌≡◌, refl, ap, ◌∙◌, sym, Bool, true, false, List, Option, none, some, Result, ok, err, Text,
}
use mathlib.Core.Path.{subst}
use documents_rag.External.{FileStorage, StorageError}
use documents_rag.Storage.Failures.{Failure, kinds, raised_of}
use documents_rag.Storage.Local.{
  FilePath, FileSystem, StoredFile, LocalError, storage_error, os_error, resolve, write_file,
  after_parents, saved, save_at, save, read_at, read, if_exists, bytes_of, deleted, delete_at,
  delete, existence, exists_at, exists_key,
}

abbrev pub stored_pair : Result Failure StoredFile → Result Text (Text × Option Text)
stored_pair (ok file) = ok (file.key, file.etag)
stored_pair (err e) = err e.message

-- what a caller may catch of a read
abbrev pub read_kinds : Result LocalError (List ℕ) → Result (Option StorageError) (List ℕ)
read_kinds (ok content) = ok content
read_kinds (err (storage_error e)) = err (some e.kind)
read_kinds (err os_error) = err none

unsaid : (e : Option Failure) → raised_of e ≡ none → e ≡ none
unsaid none h = refl
unsaid (some e) h = absurd (cc)

module _ (repr : Text → Text) (fs : FileSystem) where
  abbrev there_at : fs.State → Result Failure FilePath → Bool
  there_at s (ok path) = fs.is_there s path
  there_at s (err e) = false

  -- a file stands at the path of the key
  abbrev pub holds : fs.State → Text → Bool
  holds s key = there_at s (resolve repr fs key)

  deleted_ok :
      (key : Text) (r : fs.State × Bool)
      → (deleted repr fs key r).1 ≡ none
      → (r.1 ≡ false) × (r.0 ≡ (deleted repr fs key r).0)
  deleted_ok key (s, true) h = absurd (cc)
  deleted_ok key (s, false) h = (refl, refl)

  delete_removes :
      (key : Text) (s : fs.State) (p : Result Failure FilePath)
      → raised_of (delete_at repr fs key s p).1 ≡ none
      → there_at (delete_at repr fs key s p).0 p ≡ false
  delete_removes key s (err e) h = absurd (cc)
  delete_removes key s (ok path) h =
      let (fine, same) = deleted_ok key (fs.unlink path s) (unsaid _ h) in
      subst (λ t. fs.is_there t path ≡ false) same (fs.unlink-there path s fine)

  saved_ok :
      (key : Text) (content : List ℕ) (kind : Option Text) (r : fs.State × Bool) (file : StoredFile)
      → (saved repr fs key content kind r).1 ≡ ok file
      → (r.1 ≡ false) × (r.0 ≡ (saved repr fs key content kind r).0) × (file.key ≡ key)
  saved_ok key content kind (s, true) file h = absurd (cc)
  saved_ok key content kind (s, false) file h = (refl, refl, sym (ap (λ r. key_or key r) h))
    where
      key_or : Text → Result Failure StoredFile → Text
      key_or k (ok file) = file.key
      key_or k (err e) = k

  written :
      (path : FilePath) (content : List ℕ) (r : fs.State × Bool)
      → (after_parents repr fs path content r).1 ≡ false
      → (fs.write_bytes path content r.0).1 ≡ false
        × (after_parents repr fs path content r ≡ fs.write_bytes path content r.0)
  written path content (s, true) h = absurd (cc)
  written path content (s, false) h = (h, refl)

  save_holds :
      (key : Text) (content : List ℕ) (kind : Option Text) (s : fs.State)
      (p : Result Failure FilePath) (file : StoredFile)
      → (save_at repr fs key content kind s p).1 ≡ ok file
      → (there_at (save_at repr fs key content kind s p).0 p ≡ true) × (file.key ≡ key)
  unfolding write_file
  save_holds key content kind s (err e) file h = absurd (cc)
  save_holds key content kind s (ok path) file h =
      let (fine, same, same_key) =
        saved_ok key content kind (write_file repr fs path content s) file h in
      let (wrote, whole) = written path content (fs.make_parents path s) fine in
      (
        subst (λ t. fs.is_there t path ≡ true) (ap (λ r. r.0) (sym whole) ∙ same)
            (fs.write-there path content (fs.make_parents path s).0 wrote),
        same_key,
      )

  save_reads :
      (key : Text) (content : List ℕ) (kind : Option Text) (s : fs.State) (path : FilePath)
      (file : StoredFile)
      → (save_at repr fs key content kind s (ok path)).1 ≡ ok file
      → fs.read_bytes path (save_at repr fs key content kind s (ok path)).0 ≡ some content
  unfolding write_file
  save_reads key content kind s path file h =
      let (fine, same, same_key) =
        saved_ok key content kind (write_file repr fs path content s) file h in
      let (wrote, whole) = written path content (fs.make_parents path s) fine in
      subst (λ t. fs.read_bytes path t ≡ some content) (ap (λ r. r.0) (sym whole) ∙ same)
        (fs.write-read path content (fs.make_parents path s).0 wrote)

  exists_told :
      (key : Text) (s : fs.State) (p : Result Failure FilePath) (b : Bool)
      → kinds (exists_at repr fs key s p) ≡ ok b
      → there_at s p ≡ b
  exists_told key s (err e) b h = absurd (cc)
  exists_told key s (ok path) b h = told (fs.exists path s) refl h
    where
      told :
          (r : Option Bool)
          → fs.exists path s ≡ r
          → kinds (existence repr fs key r) ≡ ok b
          → fs.is_there s path ≡ b
      told none e q = absurd (cc)
      told (some c) e q =
          fs.exists-there path s c e
          ∙ ap (λ (r : Result StorageError Bool). elim r [ ok x ↦ x | err x ↦ c ]) q

  stored_ok :
      (r : Result Failure StoredFile) (stored : Text × Option Text)
      → stored_pair r ≡ ok stored
      → (file : StoredFile) × (r ≡ ok file) × (file.key ≡ stored.0)
  stored_ok (err e) stored h = absurd (cc)
  stored_ok (ok file) stored h = (
    file,
    refl,
    ap (λ (r : Result Text (Text × Option Text)). elim r [ ok x ↦ x.0 | err x ↦ file.key ]) h,
  )

  pub save_law :
      (key : Text) (content : List ℕ) (kind : Text) (s : fs.State) (stored : Text × Option Text)
      → stored_pair (save repr fs key content (some kind) s).1 ≡ ok stored
      → holds (save repr fs key content (some kind) s).0 stored.0 ≡ true
  unfolding save
  save_law key content kind s stored h =
      let (file, fine, named) = stored_ok (save repr fs key content (some kind) s).1 stored h in
      let (there, same_key) =
        save_holds key content (some kind) s (resolve repr fs key) file fine in
      subst (λ k. holds (save repr fs key content (some kind) s).0 k ≡ true) (sym same_key ∙ named)
        there

  pub delete_law :
      (key : Text) (s : fs.State)
      → raised_of (delete repr fs key s).1 ≡ none
      → holds (delete repr fs key s).0 key ≡ false
  unfolding delete
  delete_law key s h = delete_removes key s (resolve repr fs key) h

  pub exists_law :
      (key : Text) (s : fs.State) (b : Bool)
      → kinds (exists_key repr fs key s) ≡ ok b
      → holds s key ≡ b
  unfolding exists_key
  exists_law key s b h = exists_told key s (resolve repr fs key) b h

  -- LocalFileStorage as an implementation of the interface
  abbrev pub local_file_storage : FileStorage
  local_file_storage = record {
    State = fs.State;
    save = λ key content kind s.
        let (t, file) = save repr fs key content (some kind) s in (t, stored_pair file);
    delete = λ key s. let (t, raised) = delete repr fs key s in (t, raised_of raised);
    read = λ key s. read_kinds (read repr fs key s);
    exists = λ key s. kinds (exists_key repr fs key s);
    holds = holds;
    exists-holds = λ key s b h. exists_law key s b h;
    delete-removes = λ key s h. delete_law key s h;
    save-holds = λ key content kind s stored h. save_law key content kind s stored h;
  }

  read_back :
      (key : Text) (content : List ℕ) (kind : Option Text) (s : fs.State)
      (p : Result Failure FilePath) (file : StoredFile)
      → (save_at repr fs key content kind s p).1 ≡ ok file
      → (path : FilePath) × (p ≡ ok path)
        × (fs.is_there (save_at repr fs key content kind s p).0 path ≡ true)
        × (fs.read_bytes path (save_at repr fs key content kind s p).0 ≡ some content)
  read_back key content kind s (err e) file h = absurd (cc)
  read_back key content kind s (ok path) file h = (
    path,
    refl,
    (save_holds key content kind s (ok path) file h).0,
    save_reads key content kind s path file h,
  )

  -- A key that was saved without an error reads back exactly the saved content and is reported to
  -- exist, if the file system can tell whether a path exists.
  pub read-save :
      (key : Text) (content : List ℕ) (kind : Option Text) (s : fs.State) (file : StoredFile)
      → (save repr fs key content kind s).1 ≡ ok file
      → ((path : FilePath) (t : fs.State) → fs.exists path t ≡ some (fs.is_there t path))
      → (read repr fs key (save repr fs key content kind s).0 ≡ ok content)
        × (exists_key repr fs key (save repr fs key content kind s).0 ≡ ok true)
  unfolding save read exists_key
  read-save key content kind s file h tells =
      let t = (save repr fs key content kind s).0 in
      let (path, named, there, bytes) = read_back key content kind s (resolve repr fs key) file h in
      let seen : fs.exists path t ≡ some true = tells path t ∙ ap some there in
      (
        ap (read_at repr fs key t) named
            ∙ ap (λ r. if_exists repr fs key r (bytes_of repr fs key (fs.read_bytes path t))) seen
            ∙ ap (bytes_of repr fs key) bytes,
        ap (exists_at repr fs key t) named ∙ ap (existence repr fs key) seen,
      )
