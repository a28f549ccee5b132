-- ===== src/Hosting/Extract/Failure.antt =====
-- The two outcomes of `extract_deployment_artifact` of apps/hosting/extract.py.
use hosting_service.Base.{
  ℕ, ◌≡◌, refl, ap, subst, inl, inr, true, false, Option, none, some, List, [], ◌∷◌, ◌++◌, arith,
  Text, codes, starts_with, Bool-cases, All, Result, ok, err,
}
use hosting_service.Hosting.Storage.{
  Bytes, Storage, StorageSettings, build_storage_key, artifact_key, extracted_prefix, exists,
  delete_extracted_prefix,
}
use hosting_service.Hosting.Extract.{
  Member, ExtractError, Limits, extract_tar_members, ArtifactError, extract_failed,
  extract_deployment_artifact, or_deleted, extract_members, extract_bytes, extract_stored,
}
use hosting_service.Hosting.Storage.Trees.{read-delete_extracted_prefix}
use hosting_service.Hosting.Extract.Success.{IsExtracted, loop-IsExtracted, Written, IsFit}
use hosting_service.Hosting.Storage.Keys.{IsBelow, written-IsBelow}

returned : (a b : ℕ) → ◌≡◌ {A = Result ArtifactError ℕ} (ok a) (ok b) → a ≡ b
returned a b e = cc

module _ {ℓ} {F : Type ℓ} where
  same_outcome :
      (fs fs' : F) (k n : ℕ)
      → ◌≡◌ {A = F × Result ArtifactError ℕ} (fs, ok k) (fs', ok n)
      → ◌≡◌ {A = F × Result ExtractError ℕ} (fs, ok k) (fs', ok n)
  same_outcome fs fs' k n e i = ((e i).0, ok (returned k n (ap (λ p. p.1) e) i))

module _ (S : Storage) (open_tar : Bytes → Option (List Member)) (cfg : StorageSettings) (depth : ℕ)
    (limits : Limits) (storage_prefix : Text) where
  open S use {Files, read}

  abbrev Extracted : Files → Files → ℕ → Type 0
  Extracted fs fs' n = IsExtracted S cfg (extracted_prefix storage_prefix) limits 0 0 fs fs' n

  nothing : (fs : Files) → Extracted fs fs 0
  nothing fs = record {
    written = [];
    result = refl;
    counted = refl;
    fit = tt;
    few = omega arith;
    small = omega arith;
  }

  or_deleted-ok :
      (o : Files × Result ExtractError ℕ) (fs' : Files) (n : ℕ)
      → or_deleted S cfg depth storage_prefix o ≡ (fs', ok n)
      → o ≡ (fs', ok n)
  or_deleted-ok (fs, ok k) fs' n e = same_outcome fs fs' k n e
  or_deleted-ok (fs, err x) fs' n e = cc (ap (λ p. p.1) e)

  extract_members-ok :
      (fs : Files) (o : Option (List Member)) (fs' : Files) (n : ℕ)
      → extract_members S cfg depth storage_prefix limits fs o ≡ (fs', ok n)
      → Extracted fs fs' n
  extract_members-ok fs none fs' n e =
      subst (λ g. Extracted fs g n) (ap (λ p. p.0) e)
        (subst (Extracted fs fs) (returned 0 n (ap (λ p. p.1) e)) (nothing fs))
  extract_members-ok fs (some ms) fs' n e =
      loop-IsExtracted S cfg (extracted_prefix storage_prefix) limits ms fs fs' 0 0 n (omega arith)
        (omega arith) (or_deleted-ok _ fs' n e)

  extract_bytes-ok :
      (fs : Files) (bytes : Bytes) (fs' : Files) (n : ℕ)
      → extract_bytes S open_tar cfg depth storage_prefix limits fs bytes ≡ (fs', ok n)
      → Extracted fs fs' n
  extract_bytes-ok fs [] fs' n e = extract_members-ok fs none fs' n e
  extract_bytes-ok fs (b ∷ bytes) fs' n e = extract_members-ok fs (open_tar (b ∷ bytes)) fs' n e

  extract_stored-ok :
      (fs : Files) (o : Option Bytes) (fs' : Files) (n : ℕ)
      → extract_stored S open_tar cfg depth storage_prefix limits fs o ≡ (fs', ok n)
      → Extracted fs fs' n
  extract_stored-ok fs none fs' n e = cc (ap (λ p. p.1) e)
  extract_stored-ok fs (some bytes) fs' n e = extract_bytes-ok fs bytes fs' n e

  abbrev pub cleared : Files → Files
  cleared fs = delete_extracted_prefix S cfg depth fs storage_prefix

  loop_result :
      (fs fs' : Files) (n : ℕ)
      → extract_deployment_artifact S open_tar cfg depth limits fs storage_prefix ≡ (fs', ok n)
      → Extracted (cleared fs) fs' n
  unfolding extract_deployment_artifact
  loop_result fs fs' n e = elim (Bool-cases (exists S fs (artifact_key cfg storage_prefix))) [
    | inl there ↦
        extract_stored-ok (cleared fs) (read (cleared fs) (artifact_key cfg storage_prefix)) fs' n
          (rw there at e)
    | inr gone ↦ cc (ap (λ p. p.1) (rw gone at e))
  ]

  -- A written file is below the extracted directory, at its path.
  abbrev pub IsAtPath : Written → Type 0
  IsAtPath (rel, content) =
      IsBelow cfg storage_prefix rel
        (build_storage_key cfg (extracted_prefix storage_prefix ++ rel))

  fit-IsAtPath : (ws : List Written) → All (IsFit limits) ws → All IsAtPath ws
  fit-IsAtPath [] h = tt
  fit-IsAtPath ((rel, content) ∷ ws) ((plain, small), h) =
      (written-IsBelow cfg storage_prefix rel plain, fit-IsAtPath ws h)

  -- When an extraction returns n, the store is what `delete_extracted_prefix` leaves, with n files
  -- written one after the other, at most `max_files` of them and `max_total_bytes` in all: each is
  -- within the limit for one file, its path is a chain of plain names, and its key is what
  -- `build_storage_key` makes of the prefix and the path; unless the path ends in white space, which
  -- the key loses, that is the key of the extracted directory, a slash and the path.
  pub extract_deployment_artifact-IsExtracted :
      (fs fs' : Files) (n : ℕ)
      → extract_deployment_artifact S open_tar cfg depth limits fs storage_prefix ≡ (fs', ok n)
      → (x : IsExtracted S cfg (extracted_prefix storage_prefix) limits 0 0 (cleared fs) fs' n)
        × All IsAtPath x.written
  extract_deployment_artifact-IsExtracted fs fs' n e =
      let x = loop_result fs fs' n e in (x, fit-IsAtPath x.written x.fit)

  -- A store that was cleared after the extraction.
  abbrev IsCleared : Files → Type 0
  IsCleared fs' = (fs : Files) × (cleared fs ≡ fs')

  or_deleted-err :
      (o : Files × Result ExtractError ℕ) (fs' : Files) (x : ArtifactError)
      → or_deleted S cfg depth storage_prefix o ≡ (fs', err x)
      → IsCleared fs'
  or_deleted-err (fs, ok k) fs' x e = cc (ap (λ p. p.1) e)
  or_deleted-err (fs, err y) fs' x e = (fs, ap (λ p. p.0) e)

  extract_members-err :
      (fs : Files) (o : Option (List Member)) (fs' : Files) (x : ArtifactError)
      → extract_members S cfg depth storage_prefix limits fs o ≡ (fs', err x)
      → IsCleared fs'
  extract_members-err fs none fs' x e = cc (ap (λ p. p.1) e)
  extract_members-err fs (some ms) fs' x e =
      or_deleted-err (extract_tar_members S cfg (extracted_prefix storage_prefix) limits fs 0 0 ms)
        fs' x e

  extract_stored-err :
      (fs : Files) (o : Option Bytes) (fs' : Files) (x : ExtractError)
      → extract_stored S open_tar cfg depth storage_prefix limits fs o
        ≡ (fs', err (extract_failed x))
      → IsCleared fs'
  extract_stored-err fs none fs' x e = cc (ap (λ p. p.1) e)
  extract_stored-err fs (some []) fs' x e = cc (ap (λ p. p.1) e)
  extract_stored-err fs (some (b ∷ bytes)) fs' x e =
      extract_members-err fs (open_tar (b ∷ bytes)) fs' (extract_failed x) e

  -- On a file system, when an extraction exceeds a limit nothing is left below the extracted directory.
  pub extract_failed-nothing_left :
      (fs fs' : Files) (x : ExtractError) (k : Text)
      → cfg.s3_backend ≡ false
      → cfg.has_location ≡ true
      → starts_with k (build_storage_key cfg (extracted_prefix storage_prefix) ++ codes "/") ≡ true
      → extract_deployment_artifact S open_tar cfg depth limits fs storage_prefix
        ≡ (fs', err (extract_failed x))
      → read fs' k ≡ none
  unfolding extract_deployment_artifact
  extract_failed-nothing_left fs fs' x k local located below e =
      elim (Bool-cases (exists S fs (artifact_key cfg storage_prefix))) [
        | inl there ↦
            let (g, same) =
              extract_stored-err (cleared fs) (read (cleared fs) (artifact_key cfg storage_prefix))
                fs' x (rw there at e) in
            rw (← same) (
              rw (read-delete_extracted_prefix S cfg depth g storage_prefix k local located, below))
        | inr gone ↦ cc (ap (λ p. p.1) (rw gone at e))
      ]
