-- ===== src/Hosting/Deletion.antt =====
-- `delete_app` of apps/hosting/services.py, with the artifacts that it deletes.
use hosting_service.Base.{
  ℕ, Option, none, List, [], ◌∷◌, Text, strip_right, is_slash, if◌then◌else◌,
}
use hosting_service.Hosting.Models.{
  remove, remove_where, App, Deployment, Table, filter_rows, Actor, app_deleted, Db,
}
use hosting_service.Hosting.Storage.{
  build_storage_key, artifact_key, exists, delete_filesystem_tree, delete_extracted_prefix,
  delete_artifact_prefix,
}
use hosting_service.Hosting.Deployments.{Site, World, action_actor, event, emit, of_app}
pub mod Artifacts

module _ (site : Site) where
  open site.storage use {Files, delete}

  abbrev pub delete_artifact : Files → Text → Files
  delete_artifact fs key = if exists site.storage fs key then delete fs key else fs

  -- One round of the loop of `delete_app_artifacts`.
  unfoldable pub delete_deployment_files : Files → Deployment → Files
  delete_deployment_files fs d =
      let prefix = d.storage_prefix in
      let cleared = delete_extracted_prefix site.storage site.store site.depth fs prefix in
      let gone = delete_artifact cleared (artifact_key site.store prefix) in
      if site.store.s3_backend
      then delete_artifact_prefix site.storage site.store site.depth gone prefix
      else delete_filesystem_tree site.storage site.store gone
          (build_storage_key site.store (strip_right is_slash prefix))

  unfoldable pub delete_app_artifacts : Files → List Deployment → Files
  delete_app_artifacts fs [] = fs
  delete_app_artifacts fs (d ∷ ds) = delete_app_artifacts (delete_deployment_files fs d) ds

  -- The deployments go with the app (`on_delete=CASCADE`). `origin` is what `app_origin_for_sync`
  -- gives, or `none` where it raises; the origin whose redirect is then removed is returned.
  unfoldable pub delete_app :
      (App → Option Text) → App → Option ℕ → Text → World site → World site × Option Text
  unfolding action_actor
  delete_app origin app user actor_email w = (
    record w {
      db = emit (event app_deleted app none (action_actor user actor_email)) (record w.db {
        apps = remove app.id w.db.apps;
        deployments = remove_where (of_app app.id) w.db.deployments;
      });
      files = delete_app_artifacts w.files (filter_rows (of_app app.id) w.db.deployments);
    },
    origin app,
  )
