-- ===== src/Hosting/Deployments.antt =====
-- The deployments of apps/hosting/services.py: creation, upload, finalization, rollback.
use hosting_service.Base.{
  ℕ, ◌+◌, ◌/◌, Bool, true, false, not, Option, none, some, List, [], ◌∷◌, ◌++◌, Text, codes,
  text_eq, strip, length, if◌then◌else◌, ◌==◌, leb, ltb, Unicode, Result, ok, err, ◌>>=◌, ◌>>◌,
  raise_if,
}
pub mod Activation
pub mod Consistent
use hosting_service.Hosting.Models.{
  DeploymentStatus, draft, uploading, ready, active, superseded, failed, App, Deployment, Table,
  no_rows, insert, change, modify, modify_where, selected, filter_rows, option_eq, status_eq, Actor,
  EventType, app_created, deployment_created, deployment_succeeded, deployment_failed, Event,
  RedirectSync, Db, empty_db, HostingSettings, HostingError, missing_company, hosting_access_denied,
  not_preview, preview_expired, app_not_found, preview_not_found, preview_forbidden,
  deploy_token_preview_only, app_quota_exceeded, app_name_taken, deployment_quota_exceeded,
  invalid_deployment_status, upload_too_large, artifact_extract_failed, artifact_missing,
  invalid_slug, invalid_name, invalid_version, slugs_exhausted, CompanyHostingAccess,
}
use hosting_service.Hosting.Storage.{
  Bytes, Storage, StorageSettings, build_storage_key, artifact_key, extracted_prefix,
  extracted_file_key, exists, delete_all, delete_filesystem_tree, delete_extracted_prefix,
  open_extracted_file, extracted_index_exists, overwrite, ArtifactTooLarge, artifact_too_large,
  read_upload, save_artifact,
}
use hosting_service.Hosting.Extract.{
  Member, ExtractError, too_many_files, file_too_large, total_too_large, Limits, safe_member_name,
  read_member_limited, Round, skip, stop, write, sized, opened, named, round, extract_tar_members,
  ArtifactError, artifact_not_found, extract_failed, extract_deployment_artifact, or_deleted,
  extract_members, extract_bytes, extract_stored,
}
use hosting_service.Hosting.Access.{assert_hosting_access}
use hosting_service.Hosting.Expiry.{renewed, renew_preview_expiry}
use hosting_service.Hosting.Semver

-- What surrounds the operations: the storage, the settings, and the code that is not here.
pub record Site : Type 1 where
  pub storage : Storage
  pub unicode : Unicode
  pub settings : HostingSettings
  pub store : StorageSettings
  pub depth : ℕ
  pub limits : Limits
  -- `tarfile.open` and `getmembers`
  pub open_tar : Bytes → Option (List Member)
  -- `str` of a UUID
  pub uuid_text : ℕ → Text

-- An app as `select_related('current_deployment')` reads it.
abbrev pub Loaded : Type 0
Loaded = App × Option Deployment

-- The in-process cache of serve.py: when an entry expires, and what was read.
abbrev pub Cache : Type 0
Cache = Text → Option (ℕ × Loaded)

unfoldable pub invalidate_serve_cache : Text → Cache → Cache
invalidate_serve_cache slug cache s = if text_eq slug s then none else cache s

unfoldable pub action_actor : Option ℕ → Text → Option Actor
action_actor none email = none
action_actor (some user) email = some (record { user_id = user; email = email })

abbrev pub event : EventType → App → Option Deployment → Option Actor → Event
event type app deployment actor = record {
  event_type = type;
  company_id = app.company_id;
  app = app;
  deployment = deployment;
  actor = actor;
}

abbrev pub emit : Event → Db → Db
emit e db = record db { events = db.events ++ e ∷ [] }

abbrev pub valid_version : Unicode → Text → Result HostingError (Unit {0})
valid_version u v = elim (Semver.parse u v) [ ok _ ↦ ok tt | err _ ↦ err invalid_version ]

abbrev pub of_app : ℕ → Deployment → Bool
of_app app d = d.app == app

unfoldable pub new_deployment : Site → ℕ → ℕ → App → Text → Text → ℕ → Bool → Deployment
new_deployment site now id app app_version shellui_version user pinned = record {
  id = id;
  app = app.id;
  app_version = strip app_version;
  shellui_version = strip shellui_version;
  status = draft;
  pinned = pinned;
  storage_prefix = site.uuid_text app.id ++ codes "/deployments/" ++ site.uuid_text id ++ codes "/";
  deployed_by_id = some user;
  artifact_size = 0;
  created_at = now;
  updated_at = now;
  finalized_at = none;
}

-- `id` is what `uuid.uuid4()` gives.
unfoldable pub create_deployment :
    Site → ℕ → ℕ → App → Text → Text → ℕ → Bool → Text → Db → Result HostingError (Db × Deployment)
unfolding action_actor
create_deployment site now id app app_version shellui_version user pinned actor_email db = do
  assert_hosting_access site.settings app.company_id db
  raise_if
      (leb site.settings.max_deployments_per_app
        (length (filter_rows (of_app app.id) db.deployments)))
      deployment_quota_exceeded
  valid_version site.unicode app_version
  valid_version site.unicode shellui_version
  let d = new_deployment site now id app app_version shellui_version user pinned
  ok (
    emit (event deployment_created app (some d) (action_actor (some user) actor_email))
        (record db { deployments = insert id d db.deployments }),
    d,
  )

-- The state that a request finds and leaves.
pub record World (site : Site) : Type 0 where
  pub db : Db
  pub files : site.storage.Files
  pub cache : Cache

abbrev pub accepts_upload : DeploymentStatus → Bool
accepts_upload draft = true
accepts_upload uploading = true
accepts_upload failed = true
accepts_upload _ = false

abbrev pub over_limit : ℕ → Option ℕ → Bool
over_limit max none = false
over_limit max (some n) = ltb max n

abbrev pub save_upload : Deployment → Deployment → Deployment
save_upload d row = record row {
  status = d.status;
  artifact_size = d.artifact_size;
  updated_at = d.updated_at;
}

module _ (site : Site) where
  abbrev pub uploaded :
      ℕ
      → Deployment
      → World site
      → Result ArtifactTooLarge (ℕ × site.storage.Files)
      → Result HostingError (World site × Deployment)
  uploaded now d w (err e) = err HostingError.artifact_too_large
  uploaded now d w (ok (size, files)) =
      let d' = record d { status = uploading; artifact_size = size; updated_at = now } in
      ok (
        record w {
          db = record w.db { deployments = modify d.id (save_upload d') w.db.deployments };
          files = files;
        },
        d',
      )

  -- `chunks` are the reads of the request's file object.
  unfoldable pub upload_deployment_artifact :
      ℕ
      → Deployment
      → List Bytes
      → Option ℕ
      → World site
      → Result HostingError (World site × Deployment)
  upload_deployment_artifact now d chunks content_length w = do
    raise_if (not (accepts_upload d.status)) invalid_deployment_status
    raise_if (over_limit site.settings.max_upload_bytes content_length) upload_too_large
    uploaded now d w (
        save_artifact site.storage w.files (artifact_key site.store d.storage_prefix) chunks
          site.settings.max_upload_bytes)
