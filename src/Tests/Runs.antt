-- ===== src/Tests/Runs.antt =====
-- Examples on apps and deployments: a preview is prepared, uploaded and finalized.
use hosting_service.Base.{
  ◌≡◌, refl, false, none, some, [], ◌∷◌, Text, codes, starts_with, strip, strip_slashes, split,
  join, ascii_only, Result, ok, err,
}
use hosting_service.Hosting.Storage.{
  build_storage_key, artifact_key, extracted_prefix, delete_all, delete_filesystem_tree,
  delete_extracted_prefix, overwrite, read_upload, save_artifact,
}
use hosting_service.Hosting.Extract.{
  extract_deployment_artifact, extract_tar_members, read_member_limited, round,
}
use hosting_service.Hosting.Paths.{normalize_relative_path, windows_absolute, normpath}
use hosting_service.Hosting.Models.{Db, empty_db, App, Deployment, active}
use hosting_service.Hosting.Access.{assert_hosting_access}
use hosting_service.Hosting.Semver.{parse}
use hosting_service.Hosting.Slug.{
  generate_public_slug, generate_from, candidate, choices, validate_slug, matches_slug_pattern,
}
use hosting_service.Hosting.Apps.{
  create_preview_app, PreviewRequest, prepare_preview_deploy, resolve_preview_app, find_app,
  active_app_count, new_app,
}
use hosting_service.Hosting.Apps.Ownership.{IsAllowed, resolve_preview_app-IsAllowed}
use hosting_service.Hosting.Apps.Quota.{IsCreated, create_preview_app-IsCreated}
use hosting_service.Hosting.Deployments.{
  Cache, World, action_actor, create_deployment, new_deployment, upload_deployment_artifact,
}
use hosting_service.Hosting.Deployments.Activation.{
  publish, activate_deployment, switch_deployments, set_current, finalize_deployment,
}
use hosting_service.Hosting.Deployments.Consistent.{is_active, is_current}
use hosting_service.Hosting.Expiry.{renew_preview_expiry, renewed, preview_expires_at, ttl_days}
use hosting_service.Hosting.Lifecycle.Activating.{IsLoaded}
use hosting_service.Hosting.Lifecycle.Reachable.{
  Reach, prepare, upload, finalize, here, next, Reach-active_iff_current, current_deployment-active,
}
use hosting_service.Tests.{site, open_settings, first_choice}
use hosting_service.Hosting.Serve.{
  get, load_app, cache_get_app, cache_set_app, read_app, first_open, looks_like_static_asset,
  cache_control_for, is_immutable_asset, is_hashed_filename, CacheControl, file,
}
use hosting_service.Hosting.Serve.Fresh.{after_visits, WasRead, load_app-recent}
use hosting_service.Hosting.Serve.Answers.{IsAnswer, get-IsAnswer}
use hosting_service.Hosting.Expiry.{is_preview_expired}
use hosting_service.Hosting.Paths.{
  validate_serve_path, raw_path_has_traversal, encoded_dotdot, dots_here, dots_after_boundary,
  unquote,
}
use hosting_service.Hosting.Storage.{
  open_extracted_file, extracted_index_exists, extracted_file_key,
}
use hosting_service.Base.{contains_text, is_one_of, ◌⊎◌, ℕ, ◌<◌}
use hosting_service.Hosting.Deletion.{delete_app}
use hosting_service.Hosting.Deletion.Artifacts.{IsBelow, delete_app-nothing_left}
use hosting_service.Hosting.Models.{filter_rows}
use hosting_service.Hosting.Deployments.{of_app}
use hosting_service.Base.{inl}
use hosting_service.Tests.{memory}

abbrev slug : Text
slug = codes "aaaaaaaaaaaa"

abbrev preview : App
preview = new_app 5 0 slug slug 4 slug (some 1)

abbrev result : {E A : Type 0} → A → Result E A → A
result a (ok b) = b
result a (err e) = a

unfoldable made : Db × App
unfolding create_preview_app active_app_count generate_public_slug generate_from candidate choices
    assert_hosting_access action_actor
made =
    result (empty_db, preview)
      (create_preview_app open_settings first_choice 5 0 4 1 [] (codes "a@b") empty_db)

creation : create_preview_app open_settings first_choice 5 0 4 1 [] (codes "a@b") empty_db ≡ ok made
unfolding create_preview_app active_app_count generate_public_slug generate_from candidate choices
    assert_hosting_access action_actor made
creation = refl

create_preview_app-IsCreated_example :
    IsCreated ascii_only open_settings 5 0 4 1 empty_db made.0 made.1
create_preview_app-IsCreated_example =
    create_preview_app-IsCreated ascii_only open_settings first_choice 5 0 4 1 [] (codes "a@b")
      empty_db made.0 made.1 tt creation

resolution : resolve_preview_app ascii_only (codes " AAAAAAAAAAAA ") 4 1 false made.0 ≡ ok made.1
unfolding resolve_preview_app find_app validate_slug matches_slug_pattern strip made
resolution = refl

resolve_preview_app-IsAllowed_example : IsAllowed 4 1 false made.0 made.1
resolve_preview_app-IsAllowed_example =
    resolve_preview_app-IsAllowed ascii_only (codes " AAAAAAAAAAAA ") 4 1 false made.0 made.1
      resolution

abbrev request : PreviewRequest
request = record {
  company = 4;
  user = 1;
  slug = [];
  display_name = codes "Docs";
  app_version = codes "1.0.0";
  shellui_version = codes "0.3.0";
  actor_email = codes "a@b";
  access_token = [];
  any_user = false;
}

no_cache : Cache
no_cache s = none

abbrev start : World site
start = record { db = empty_db; files = []; cache = no_cache }

abbrev first_app : App
first_app = new_app 5 0 slug slug 4 (codes "Docs") (some 1)

draft_deployment : Deployment
unfolding new_deployment strip
draft_deployment = new_deployment site 5 1 first_app (codes "1.0.0") (codes "0.3.0") 1 false

-- The rows after each of the three calls.
unfoldable prepared : Db × App × Deployment
unfolding prepare_preview_deploy create_preview_app active_app_count generate_public_slug
    generate_from candidate choices assert_hosting_access action_actor create_deployment
    new_deployment parse strip
prepared =
    result (empty_db, first_app, draft_deployment)
      (prepare_preview_deploy site first_choice 5 0 1 request empty_db)

preparation : prepare_preview_deploy site first_choice 5 0 1 request empty_db ≡ ok prepared
unfolding prepared
preparation = refl

unfoldable sent_world : World site × Deployment
unfolding upload_deployment_artifact save_artifact read_upload overwrite artifact_key
    build_storage_key strip strip_slashes prepared
sent_world =
    result (start, draft_deployment)
      (upload_deployment_artifact site 6 prepared.2 (codes "gz" ∷ []) none
        (record start { db = prepared.0 }))

uploaded_row : prepared.0.deployments.row prepared.2.id ≡ some prepared.2
unfolding prepared
uploaded_row = refl

uploading_it :
    upload_deployment_artifact site 6 prepared.2
      (codes "gz" ∷ [])
      none
      (record start { db = prepared.0 })
    ≡ ok sent_world
unfolding sent_world
uploading_it = refl

loaded : IsLoaded sent_world.0.db sent_world.1 prepared.1
unfolding sent_world
loaded = record { row = refl; app_row = refl; own = refl }

-- The world after the deployment was finalized.
unfoldable final : World site
final = (finalize_deployment site 7 sent_world.1 prepared.1 (some 1) [] [] sent_world.0).0

run : Reach site start final
unfolding final
run =
    next
      (next
        (next here (
          prepare first_choice 5 0 1 request start prepared.0 prepared.1 prepared.2 refl refl
            preparation))
        (upload 6 prepared.2 sent_world.1 (codes "gz" ∷ []) none (record start { db = prepared.0 })
          sent_world.0 uploaded_row uploading_it))
      (finalize 7 sent_world.1 prepared.1 (some 1) [] [] sent_world.0 loaded)

abbrev final_deployment : Deployment
final_deployment = record draft_deployment {
  status = active;
  artifact_size = 2;
  updated_at = 7;
  finalized_at = some 7;
}

final_row : final.db.deployments.row 1 ≡ some final_deployment
unfolding final finalize_deployment activate_deployment switch_deployments set_current
    draft_deployment action_actor renew_preview_expiry renewed preview_expires_at ttl_days
    extract_deployment_artifact extract_tar_members round read_member_limited
    delete_extracted_prefix delete_filesystem_tree delete_all overwrite artifact_key
    build_storage_key extracted_prefix strip strip_slashes starts_with normalize_relative_path
    normpath windows_absolute split join sent_world publish
final_row = refl

Reach-active_iff_current_example :
    is_active final_deployment.status ≡ is_current final.db.apps 1 final_deployment.app
Reach-active_iff_current_example =
    Reach-active_iff_current site [] no_cache final 1 final_deployment run final_row

abbrev final_app : App
final_app = record first_app {
  expires_at = some 604_807;
  current_deployment = some 1;
  updated_at = 7;
}

final_app_row : final.db.apps.row 0 ≡ some final_app
unfolding final finalize_deployment activate_deployment switch_deployments set_current
    draft_deployment action_actor renew_preview_expiry renewed preview_expires_at ttl_days
    extract_deployment_artifact extract_tar_members round read_member_limited
    delete_extracted_prefix delete_filesystem_tree delete_all overwrite artifact_key
    build_storage_key extracted_prefix strip strip_slashes starts_with normalize_relative_path
    normpath windows_absolute split join sent_world publish
final_app_row = refl

current_deployment-active_example :
    (d : Deployment) × (final.db.deployments.row 1 ≡ some d) × (d.app ≡ 0) × (d.status ≡ active)
current_deployment-active_example =
    current_deployment-active site [] no_cache final 0 1 final_app run final_app_row refl

-- The page is then served.
served :
    (get site 45 0 10 slug (codes "/about/") final).1
    ≡ file (codes "index.html") (codes "hi") CacheControl.no_cache
unfolding final finalize_deployment activate_deployment switch_deployments set_current
    draft_deployment action_actor renew_preview_expiry renewed preview_expires_at ttl_days
    extract_deployment_artifact extract_tar_members round read_member_limited
    delete_extracted_prefix delete_filesystem_tree delete_all overwrite artifact_key
    build_storage_key extracted_prefix strip strip_slashes starts_with normalize_relative_path
    normpath windows_absolute split join sent_world publish get load_app cache_get_app cache_set_app
    read_app find_app is_preview_expired validate_serve_path raw_path_has_traversal encoded_dotdot
    dots_here dots_after_boundary contains_text unquote open_extracted_file extracted_index_exists
    extracted_file_key first_open looks_like_static_asset cache_control_for is_immutable_asset
    is_hashed_filename prepared is_one_of
served = refl

get-IsAnswer_example :
    IsAnswer site 10 final
      (load_app 45 0 slug final.db final.cache).1
      (codes "index.html")
      (codes "hi")
      CacheControl.no_cache
get-IsAnswer_example =
    get-IsAnswer site 10 (codes "/about/") final 45 0 slug (codes "index.html") (codes "hi")
      CacheControl.no_cache served

-- The second visit finds what the first one has read.
cached :
    (load_app 45 10 slug empty_db (after_visits 45 ((0, slug, made.0) ∷ []))).1
    ≡ some (made.1, none)
unfolding load_app cache_get_app cache_set_app read_app find_app after_visits made
cached = refl

load_app-recent_example :
    (read_app slug empty_db ≡ some (made.1, none))
    ⊎ ((e : ℕ) × (10 < e) × WasRead 45 e slug (made.1, none) ((0, slug, made.0) ∷ []))
load_app-recent_example =
    load_app-recent 45 10 slug empty_db ((0, slug, made.0) ∷ []) (made.1, none) cached

-- The files of the finalized deployment.
page-IsBelow :
    IsBelow site
      (codes "sites/0/deployments/1/extracted/index.html")
      (filter_rows (of_app prepared.1.id) final.db.deployments)
unfolding final finalize_deployment activate_deployment switch_deployments set_current
    draft_deployment action_actor renew_preview_expiry renewed preview_expires_at ttl_days
    extract_deployment_artifact extract_tar_members round read_member_limited
    delete_extracted_prefix delete_filesystem_tree delete_all overwrite artifact_key
    build_storage_key extracted_prefix strip strip_slashes starts_with normalize_relative_path
    normpath windows_absolute split join sent_world publish prepared
page-IsBelow = inl refl

delete_app-nothing_left_example :
    memory.read
      (delete_app site (λ a. none) prepared.1 none [] final).0.files
      (codes "sites/0/deployments/1/extracted/index.html")
    ≡ none
delete_app-nothing_left_example =
    delete_app-nothing_left site refl refl (λ a. none) prepared.1 none []
      (codes "sites/0/deployments/1/extracted/index.html") final page-IsBelow
