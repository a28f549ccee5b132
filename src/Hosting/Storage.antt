-- ===== src/Hosting/Storage.antt =====
-- apps/hosting/storage.py: storage keys, the artifact that is saved, and what is deleted.
pub mod Trees
pub mod Uploads
pub mod Keys
use hosting_service.Base.{
  ℕ, zero, suc, ◌+◌, ◌-◌, ◌/◌, ◌≡◌, ◌≢◌, ◌↔◌, Bool, true, false, Option, none, some, List, [], ◌∷◌,
  ◌++◌, map, Text, codes, text_eq, is_one_of, starts_with, strip, strip_left, strip_right, is_slash,
  strip_slashes, length, is_empty, if◌then◌else◌, ltb, Result, ok, err, ◌>>=◌, ◌>>◌,
}

abbrev pub Bytes : Type 0
Bytes = List ℕ

-- Django's `default_storage` as an object store: what `open(k).read()` gives, `save` at a free key,
-- `delete`, `listdir`, and the files that `Path.rglob('*')` finds below a directory.
pub record Storage : Type 1 where
  pub Files : Type 0
  pub read : Files → Text → Option Bytes
  pub save : Files → Text → Bytes → Files
  pub delete : Files → Text → Files
  -- the directories and the files, or `none` where the call raises
  pub listdir : Files → Text → Option (List Text × List Text)
  pub files_below : Files → Text → List Text
  pub read-save :
      (fs : Files) (k j : Text) (b : Bytes)
      → read fs k ≡ none
      → read (save fs k b) j ≡ (if text_eq k j then some b else read fs j)
  pub read-delete :
      (fs : Files) (k j : Text) → read (delete fs k) j ≡ (if text_eq k j then none else read fs j)
  pub files_below_iff :
      (fs : Files) (d k : Text)
      → (is_one_of k (files_below fs d) ≡ true)
        ↔ ((starts_with k (d ++ codes "/") ≡ true) × (read fs k ≢ none))

-- HOSTING_BACKEND, HOSTING_KEY_PREFIX, and whether the storage has a `location`.
pub record StorageSettings : Type 0 where
  pub s3_backend : Bool
  pub key_prefix : Text
  pub has_location : Bool

-- `f'{prefix}/{relative}' if prefix else relative`
unfoldable pub build_storage_key : StorageSettings → Text → Text
build_storage_key cfg relative =
    let prefix = strip_slashes (strip cfg.key_prefix) in
    let rest = strip_slashes (strip relative) in
    if is_empty prefix then rest else prefix ++ b'/' ∷ rest

unfoldable pub artifact_key : StorageSettings → Text → Text
artifact_key cfg storage_prefix = build_storage_key cfg (storage_prefix ++ codes "artifact.tar.gz")

unfoldable pub extracted_prefix : Text → Text
extracted_prefix storage_prefix = strip_right is_slash storage_prefix ++ codes "/extracted/"

unfoldable pub extracted_file_key : StorageSettings → Text → Text → Text
extracted_file_key cfg storage_prefix relative_path =
    build_storage_key cfg (extracted_prefix storage_prefix ++ strip_left is_slash relative_path)

module _ (S : Storage) where
  open S use {Files, read, save, delete, listdir, files_below}

  abbrev pub exists : Files → Text → Bool
  exists fs k = elim (read fs k) [ none ↦ false | some b ↦ true ]

  unfoldable pub delete_all : Files → List Text → Files
  delete_all fs [] = fs
  delete_all fs (k ∷ ks) = delete_all (delete fs k) ks

  -- The files below the directory are unlinked; the directories hold nothing by themselves.
  unfoldable pub delete_filesystem_tree : StorageSettings → Files → Text → Files
  delete_filesystem_tree cfg fs key =
      if cfg.has_location then delete_all fs (files_below fs key) else fs

  unfoldable pub for_each : (Files → Text → Files) → Files → List Text → Files
  for_each step fs [] = fs
  for_each step fs (d ∷ ds) = for_each step (step fs d) ds

  -- S3: the files of a listing are deleted, and the call is made again for each of its directories,
  -- with the path that the source gives it. `depth` bounds how deep the calls go.
  unfoldable pub delete_extracted_s3 : StorageSettings → ℕ → Files → Text → Files
  unfolding for_each delete_all
  delete_extracted_s3 cfg zero fs storage_prefix = fs
  delete_extracted_s3 cfg (suc depth) fs storage_prefix =
      let normalized = build_storage_key cfg (extracted_prefix storage_prefix) in
      elim (listdir fs normalized) [
        | none ↦ fs
        | some (dirs, files) ↦
            for_each (delete_extracted_s3 cfg depth)
              (delete_all fs (map (λ n. normalized ++ b'/' ∷ n) files))
              (map (λ n. extracted_prefix storage_prefix ++ n) dirs)
      ]

  unfoldable pub delete_extracted_prefix : StorageSettings → ℕ → Files → Text → Files
  delete_extracted_prefix cfg depth fs storage_prefix =
      if cfg.s3_backend
      then delete_extracted_s3 cfg depth fs storage_prefix
      else delete_filesystem_tree cfg fs (build_storage_key cfg (extracted_prefix storage_prefix))

  unfoldable pub delete_artifact_s3 : StorageSettings → ℕ → Files → Text → Files
  unfolding for_each delete_all
  delete_artifact_s3 cfg zero fs prefix = fs
  delete_artifact_s3 cfg (suc depth) fs prefix =
      let normalized = build_storage_key cfg prefix in
      elim (listdir fs normalized) [
        | none ↦ fs
        | some (dirs, files) ↦
            for_each (delete_artifact_s3 cfg depth)
              (delete_all fs (map (λ n. normalized ++ b'/' ∷ n) files))
              (map (λ n. strip_right is_slash prefix ++ b'/' ∷ n) dirs)
      ]

  unfoldable pub delete_artifact_prefix : StorageSettings → ℕ → Files → Text → Files
  delete_artifact_prefix cfg depth fs prefix =
      if cfg.s3_backend then delete_artifact_s3 cfg depth fs prefix else fs

  -- `default_storage.open`, or `none` where it raises.
  unfoldable pub open_extracted_file : StorageSettings → Files → Text → Text → Option Bytes
  open_extracted_file cfg fs storage_prefix relative_path =
      read fs (extracted_file_key cfg storage_prefix relative_path)

  unfoldable pub extracted_index_exists : StorageSettings → Files → Text → Bool
  extracted_index_exists cfg fs storage_prefix =
      exists fs (extracted_file_key cfg storage_prefix (codes "index.html"))

  -- `if default_storage.exists(key): default_storage.delete(key)`, then `save`.
  unfoldable pub overwrite : Files → Text → Bytes → Files
  overwrite fs k b = save (if exists fs k then delete fs k else fs) k b

pub data ArtifactTooLarge : Type 0 where
  artifact_too_large : ArtifactTooLarge

-- The loop over what `fileobj.read(1024**2)` returns, into the temporary file.
unfoldable pub read_upload : ℕ → Bytes → List Bytes → Result ArtifactTooLarge Bytes
read_upload max_bytes tmp [] = ok tmp
read_upload max_bytes tmp (chunk ∷ chunks) =
    let rest = read_upload max_bytes (tmp ++ chunk) chunks in
    if is_empty chunk
    then ok tmp
    else if ltb max_bytes (length tmp + length chunk)
    then err artifact_too_large
    else rest

module _ (S : Storage) where
  open S use {Files}

  -- The size that was read, and the store.
  unfoldable pub save_artifact : Files → Text → List Bytes → ℕ → Result ArtifactTooLarge (ℕ × Files)
  unfolding read_upload
  save_artifact fs key chunks max_bytes = do
    tmp ← read_upload max_bytes [] chunks
    ok (length tmp, overwrite S fs key tmp)
