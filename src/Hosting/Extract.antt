-- ===== src/Hosting/Extract.antt =====
-- apps/hosting/extract.py: unpacking an artifact below the extracted directory of its deployment.
pub mod Success
pub mod Failure
use hosting_service.Base.{
  ℕ, ◌+◌, Bool, Option, none, some, List, [], ◌∷◌, ◌++◌, Text, length, is_empty, if◌then◌else◌, leb,
  ltb, Result, ok, err,
}
use hosting_service.Hosting.Storage.{
  Bytes, Storage, StorageSettings, build_storage_key, artifact_key, extracted_prefix,
  extracted_file_key, exists, delete_all, delete_filesystem_tree, delete_extracted_prefix,
  open_extracted_file, extracted_index_exists, overwrite, ArtifactTooLarge, artifact_too_large,
  read_upload, save_artifact,
}
use hosting_service.Hosting.Paths.{normalize_relative_path}

-- A member of a tar archive: `isfile()`, `size`, and what reading it gives chunk by chunk (`none`
-- where `extractfile` returns None).
pub record Member : Type 0 where
  pub name : Text
  pub is_file : Bool
  pub size : ℕ
  pub chunks : Option (List Bytes)

pub data ExtractError : Type 0 where
  too_many_files file_too_large total_too_large : ExtractError

-- `_extract_limits`
pub record Limits : Type 0 where
  pub max_files : ℕ
  pub max_total_bytes : ℕ
  pub max_file_bytes : ℕ

abbrev pub safe_member_name : Text → Option Text
safe_member_name name = normalize_relative_path (some name)

unfoldable pub read_member_limited : ℕ → Bytes → List Bytes → Result ExtractError Bytes
read_member_limited max_file_bytes content [] = ok content
read_member_limited max_file_bytes content (chunk ∷ chunks) =
    let rest = read_member_limited max_file_bytes (content ++ chunk) chunks in
    if is_empty chunk
    then ok content
    else if ltb max_file_bytes (length content + length chunk)
    then err file_too_large
    else rest

-- What one round of the loop decides: `continue`, `raise`, or a file to write at a relative path.
pub data Round : Type 0 where
  skip : Round
  stop : ExtractError → Round
  write : Text → Bytes → Round

abbrev pub sized : Limits → ℕ → Text → Result ExtractError Bytes → Round
sized limits total rel (err e) = stop e
sized limits total rel (ok content) =
    if ltb limits.max_total_bytes (total + length content)
    then stop total_too_large
    else write rel content

abbrev pub opened : Limits → ℕ → Text → Option (List Bytes) → Round
opened limits total rel none = skip
opened limits total rel (some chunks) =
    sized limits total rel (read_member_limited limits.max_file_bytes [] chunks)

abbrev pub named : Limits → ℕ → ℕ → Member → Option Text → Round
named limits count total m none = skip
named limits count total m (some rel) =
    if is_empty rel
    then skip
    else if leb limits.max_files count
    then stop too_many_files
    else if ltb limits.max_file_bytes m.size
    then stop file_too_large
    else opened limits total rel m.chunks

unfoldable pub round : Limits → ℕ → ℕ → Member → Round
round limits count total m =
    if m.is_file then named limits count total m (safe_member_name m.name) else skip

module _ (S : Storage) where
  open S use {Files, read}

  -- `_extract_tar_members`, with the store that it leaves, also where it raises.
  unfoldable pub extract_tar_members :
      StorageSettings → Text → Limits → Files → ℕ → ℕ → List Member → Files × Result ExtractError ℕ
  extract_tar_members cfg prefix limits fs count total [] = (fs, ok count)
  extract_tar_members cfg prefix limits fs count total (m ∷ ms) =
      elim (round limits count total m) [
        | skip ↦ extract_tar_members cfg prefix limits fs count total ms
        | stop e ↦ (fs, err e)
        | write rel content ↦
            extract_tar_members cfg prefix limits
              (overwrite S fs (build_storage_key cfg (prefix ++ rel)) content) (count + 1)
              (total + length content) ms
      ]

-- What `extract_deployment_artifact` raises.
pub data ArtifactError : Type 0 where
  artifact_not_found : ArtifactError
  extract_failed : ExtractError → ArtifactError

module _ (S : Storage) where
  open S use {Files, read}

  -- `except ExtractError`: what was extracted is deleted, and the error raised again.
  abbrev pub or_deleted :
      StorageSettings → ℕ → Text → Files × Result ExtractError ℕ → Files × Result ArtifactError ℕ
  or_deleted cfg depth storage_prefix (fs, ok n) = (fs, ok n)
  or_deleted cfg depth storage_prefix (fs, err e) =
      (delete_extracted_prefix S cfg depth fs storage_prefix, err (extract_failed e))

  -- An empty artifact, or one that `tarfile.open` refuses (`none`), extracts to no file.
  abbrev pub extract_members :
      StorageSettings
      → ℕ
      → Text
      → Limits
      → Files
      → Option (List Member)
      → Files × Result ArtifactError ℕ
  extract_members cfg depth storage_prefix limits fs none = (fs, ok 0)
  extract_members cfg depth storage_prefix limits fs (some ms) =
      or_deleted cfg depth storage_prefix
        (extract_tar_members S cfg (extracted_prefix storage_prefix) limits fs 0 0 ms)

  abbrev pub extract_bytes :
      (Bytes → Option (List Member))
      → StorageSettings
      → ℕ
      → Text
      → Limits
      → Files
      → Bytes
      → Files × Result ArtifactError ℕ
  extract_bytes open_tar cfg depth storage_prefix limits fs [] = (fs, ok 0)
  extract_bytes open_tar cfg depth storage_prefix limits fs (b ∷ bytes) =
      extract_members cfg depth storage_prefix limits fs (open_tar (b ∷ bytes))

  -- What `default_storage.open` gives, if the object is still there.
  abbrev pub extract_stored :
      (Bytes → Option (List Member))
      → StorageSettings
      → ℕ
      → Text
      → Limits
      → Files
      → Option Bytes
      → Files × Result ArtifactError ℕ
  extract_stored open_tar cfg depth storage_prefix limits fs none = (fs, err artifact_not_found)
  extract_stored open_tar cfg depth storage_prefix limits fs (some bytes) =
      extract_bytes open_tar cfg depth storage_prefix limits fs bytes

  -- `extract_deployment_artifact`. `open_tar` stands for `tarfile.open` and `getmembers`; the artifact
  -- is read after the earlier extraction was deleted.
  unfoldable pub extract_deployment_artifact :
      (Bytes → Option (List Member))
      → StorageSettings
      → ℕ
      → Limits
      → Files
      → Text
      → Files × Result ArtifactError ℕ
  extract_deployment_artifact open_tar cfg depth limits fs storage_prefix =
      let key = artifact_key cfg storage_prefix in
      let cleared = delete_extracted_prefix S cfg depth fs storage_prefix in
      if exists S fs key
      then extract_stored open_tar cfg depth storage_prefix limits cleared (read cleared key)
      else (fs, err artifact_not_found)
