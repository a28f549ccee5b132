-- ===== src/Hosting/Deletion/Artifacts.antt =====
-- The files of a deleted app.
use hosting_service.Base.{
  ℕ, ◌≡◌, refl, ap, ◌∙◌, ◌⊎◌, inl, inr, Bool, true, false, Option, none, List, [], ◌∷◌, ◌++◌, Text,
  codes, text_eq, starts_with, strip_right, is_slash, Bool-cases, if◌then◌else◌,
}
use hosting_service.Hosting.Models.{App, Deployment, filter_rows}
use hosting_service.Hosting.Storage.{
  delete_artifact_prefix, build_storage_key, artifact_key, exists, delete_filesystem_tree,
  delete_extracted_prefix,
}
use hosting_service.Hosting.Storage.Trees.{
  read-delete_filesystem_tree, read-delete_extracted_prefix,
}
use hosting_service.Hosting.Deployments.{Site, World, of_app}
use hosting_service.Hosting.Deletion.{
  delete_artifact, delete_deployment_files, delete_app_artifacts, delete_app,
}

-- Some deployment of the list has the key below its prefix.
abbrev pub IsBelow : Site → Text → List Deployment → Type 0
IsBelow site k [] = ⊥
IsBelow site k (d ∷ ds) =
    (starts_with k
        (build_storage_key site.store (strip_right is_slash d.storage_prefix) ++ codes "/")
      ≡ true)
    ⊎ IsBelow site k ds

when_none : {A : Type 0} (b : Bool) (o : Option A) → o ≡ none → (if b then none else o) ≡ none
when_none true o h = refl
when_none false o h = h

module _ (site : Site) (local : site.store.s3_backend ≡ false)
    (located : site.store.has_location ≡ true) where
  open site.storage use {Files, read, delete}

  delete_artifact-none :
      (fs : Files) (key k : Text) → read fs k ≡ none → read (delete_artifact site fs key) k ≡ none
  delete_artifact-none fs key k h = elim (Bool-cases (exists site.storage fs key)) [
    | inl there ↦
        rw there (site.storage.read-delete fs key k ∙ when_none (text_eq key k) (read fs k) h)
    | inr gone ↦ rw gone h
  ]

  -- What is read after one deployment's files were deleted.
  read-delete_deployment_files :
      (fs : Files) (d : Deployment) (k : Text)
      → (read fs k ≡ none)
        ⊎ (starts_with k
              (build_storage_key site.store (strip_right is_slash d.storage_prefix) ++ codes "/")
            ≡ true)
      → read (delete_deployment_files site fs d) k ≡ none
  unfolding delete_deployment_files
  read-delete_deployment_files fs d k h =
      let prefix = d.storage_prefix in
      let cleared = delete_extracted_prefix site.storage site.store site.depth fs prefix in
      let gone = delete_artifact site cleared (artifact_key site.store prefix) in
      ap
        (λ b.
          read
            (if b
              then delete_artifact_prefix site.storage site.store site.depth gone prefix
              else delete_filesystem_tree site.storage site.store gone
                  (build_storage_key site.store (strip_right is_slash prefix)))
            k)
        local
      ∙ read-delete_filesystem_tree site.storage site.store gone
          (build_storage_key site.store (strip_right is_slash prefix)) k located
      ∙ (elim h [
        | inl before ↦
            when_none
              (starts_with k
                (build_storage_key site.store (strip_right is_slash prefix) ++ codes "/"))
              (read gone k)
              (delete_artifact-none cleared (artifact_key site.store prefix) k (
                read-delete_extracted_prefix site.storage site.store site.depth fs prefix k local
                  located
                ∙ when_none _ (read fs k) before))
        | inr below ↦ rw below refl
      ])

  delete_app_artifacts-none :
      (ds : List Deployment) (fs : Files) (k : Text)
      → read fs k ≡ none
      → read (delete_app_artifacts site fs ds) k ≡ none
  unfolding delete_app_artifacts
  delete_app_artifacts-none [] fs k h = h
  delete_app_artifacts-none (d ∷ ds) fs k h =
      delete_app_artifacts-none ds (delete_deployment_files site fs d) k
        (read-delete_deployment_files fs d k (inl h))

  all_deleted :
      (ds : List Deployment) (fs : Files) (k : Text)
      → IsBelow site k ds
      → read (delete_app_artifacts site fs ds) k ≡ none
  unfolding delete_app_artifacts
  all_deleted [] fs k h = absurd h
  all_deleted (d ∷ ds) fs k (inl here) =
      delete_app_artifacts-none ds (delete_deployment_files site fs d) k
        (read-delete_deployment_files fs d k (inr here))
  all_deleted (d ∷ ds) fs k (inr there) = all_deleted ds (delete_deployment_files site fs d) k there

  -- On a file system, after an app was deleted nothing is left below the prefix of any of its
  -- deployments.
  pub delete_app-nothing_left :
      (origin : App → Option Text) (app : App) (user : Option ℕ) (actor_email k : Text)
      (w : World site)
      → IsBelow site k (filter_rows (of_app app.id) w.db.deployments)
      → read (delete_app site origin app user actor_email w).0.files k ≡ none
  unfolding delete_app
  delete_app-nothing_left origin app user actor_email k w h =
      all_deleted (filter_rows (of_app app.id) w.db.deployments) w.files k h
