-- ===== src/Hosting/Storage/Trees.antt =====
-- Deleting a tree, and writing one key.
use hosting_service.Base.{
  ℕ, ◌≡◌, refl, ap, ◌∙◌, inl, inr, true, false, none, some, List, [], ◌∷◌, ◌++◌, arith, Text, codes,
  text_eq, text_eq_iff, text_eq_refl, is_one_of, starts_with, Option-cases, if◌then◌else◌,
}
use hosting_service.Hosting.Storage.{
  Bytes, Storage, StorageSettings, build_storage_key, extracted_prefix, delete_all,
  delete_filesystem_tree, delete_extracted_prefix, overwrite,
}

module _ (S : Storage) where
  open S use {Files, read, save, delete, files_below}

  read-delete_all :
      (ks : List Text) (fs : Files) (j : Text)
      → read (delete_all S fs ks) j ≡ (if is_one_of j ks then none else read fs j)
  unfolding delete_all is_one_of
  read-delete_all [] fs j = refl
  read-delete_all (k ∷ ks) fs j = ground (
    arith,
    read-delete_all ks (delete fs k) j,
    S.read-delete fs k j,
    text_eq_iff j k,
    text_eq_iff k j,
  )

  pub read-delete_filesystem_tree :
      (cfg : StorageSettings) (fs : Files) (d k : Text)
      → cfg.has_location ≡ true
      → read (delete_filesystem_tree S cfg fs d) k
        ≡ (if starts_with k (d ++ codes "/") then none else read fs k)
  unfolding delete_filesystem_tree
  read-delete_filesystem_tree cfg fs d k located =
      ground (arith, read-delete_all (files_below fs d) fs k, S.files_below_iff fs d k)

  -- On a file system nothing is left below the extracted directory of a deployment, and no other
  -- key changes.
  pub read-delete_extracted_prefix :
      (cfg : StorageSettings) (depth : ℕ) (fs : Files) (storage_prefix k : Text)
      → cfg.s3_backend ≡ false
      → cfg.has_location ≡ true
      → read (delete_extracted_prefix S cfg depth fs storage_prefix) k ≡ (
          if starts_with k (build_storage_key cfg (extracted_prefix storage_prefix) ++ codes "/")
          then none
          else read fs k)
  unfolding delete_extracted_prefix delete_filesystem_tree
  read-delete_extracted_prefix cfg depth fs storage_prefix k local located =
      let d = build_storage_key cfg (extracted_prefix storage_prefix) in
      ground (arith, read-delete_all (files_below fs d) fs k, S.files_below_iff fs d k)

  pub read-overwrite :
      (fs : Files) (k j : Text) (b : Bytes)
      → read (overwrite S fs k b) j ≡ (if text_eq k j then some b else read fs j)
  unfolding overwrite
  read-overwrite fs k j b = elim (Option-cases (read fs k)) [
    | inl free ↦ ground (arith, free, S.read-save fs k j b free)
    | inr (old, taken) ↦
        let gone =
          S.read-delete fs k k ∙ ap (λ t. if t then none else read fs k) (text_eq_refl k) in
        ground (arith, taken, S.read-save (delete fs k) k j b gone, S.read-delete fs k j)
  ]
