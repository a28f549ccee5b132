-- ===== src/Tests/Stores.antt =====
-- Examples on the storage, on artifacts, and on who may host.
use hosting_service.Base.{
  inr, All, ◌+◌, ◌*◌, arith, ◌≤◌, ◌≡◌, refl, ◌↔◌, true, ◌||◌, none, some, [], ◌∷◌, ◌++◌, Text,
  codes, text_eq, starts_with, strip, strip_slashes, split, join, length, if◌then◌else◌, ◌==◌, ok,
  err,
}
use hosting_service.Hosting.Storage.{
  build_storage_key, artifact_key, extracted_prefix, delete_all, delete_filesystem_tree,
  delete_extracted_prefix, overwrite, read_upload, save_artifact,
}
use hosting_service.Hosting.Storage.Uploads.{sent, read-save_artifact}
use hosting_service.Hosting.Extract.{
  extract_deployment_artifact, extract_tar_members, read_member_limited, round, extract_failed,
  too_many_files,
}
use hosting_service.Hosting.Extract.Success.{IsExtracted}
use hosting_service.Hosting.Extract.Failure.{
  IsAtPath, extract_deployment_artifact-IsExtracted, extract_failed-nothing_left,
}
use hosting_service.Hosting.Paths.{normalize_relative_path, windows_absolute, normpath}
use hosting_service.Hosting.Models.{
  Db, empty_db, App, hosting_access_denied, CompanyHostingAccess, approved, modify, insert, no_rows,
  preview_expired, HostingSettings,
}
use hosting_service.Hosting.Access.{
  assert_hosting_access, request_access, update_access, access_status, reviewed, get_access,
  find_access, save_access,
}
use hosting_service.Hosting.Access.Gate.{
  assert_hosting_access-request_access, assert_hosting_access-update_access,
}
use hosting_service.Hosting.Expiry.{
  renew_app_expiry, is_preview_expired, preview_expires_at, renew_app_expiry-lifetime,
  renew_app_expiry-expired_iff, ttl_days, save_expiry, HasEnded,
}
use hosting_service.Tests.{memory, Entries, on_disk, settings, small, one_page, two_pages}

-- A deployment with an artifact, and a page that an earlier extraction left.
abbrev prefix : Text
prefix = codes "0/deployments/1/"

abbrev old_page : Text
old_page = codes "sites/0/deployments/1/extracted/old.html"

abbrev stored : Entries
stored = (codes "sites/0/deployments/1/artifact.tar.gz", codes "gz") ∷ (old_page, codes "old") ∷ []

old_below :
    starts_with old_page (build_storage_key on_disk (extracted_prefix prefix) ++ codes "/") ≡ true
unfolding build_storage_key extracted_prefix strip strip_slashes starts_with
old_below = refl

abbrev replaced : Entries
replaced =
    (old_page, codes "abc") ∷ (codes "sites/0/deployments/1/artifact.tar.gz", codes "gz") ∷ []

saving : save_artifact memory stored old_page (codes "ab" ∷ codes "c" ∷ []) 3 ≡ ok (3, replaced)
unfolding save_artifact read_upload overwrite
saving = refl

read-save_artifact_example :
    (3 ≡ length (sent (codes "ab" ∷ codes "c" ∷ [])))
    × (3 ≤ 3)
    × (memory.read replaced old_page ≡ (
        if text_eq old_page old_page
        then some (sent (codes "ab" ∷ codes "c" ∷ []))
        else memory.read stored old_page))
read-save_artifact_example =
    read-save_artifact memory stored replaced old_page old_page (codes "ab" ∷ codes "c" ∷ []) 3 3
      saving

abbrev after_extraction : Entries
after_extraction =
    (codes "sites/0/deployments/1/extracted/index.html", codes "hi")
    ∷ (codes "sites/0/deployments/1/artifact.tar.gz", codes "gz")
    ∷ []

extraction :
    extract_deployment_artifact memory one_page on_disk 0 small stored prefix
    ≡ (after_extraction, ok 1)
unfolding extract_deployment_artifact extract_tar_members round read_member_limited
    delete_extracted_prefix delete_filesystem_tree delete_all overwrite artifact_key
    build_storage_key extracted_prefix strip strip_slashes starts_with normalize_relative_path
    normpath windows_absolute split join
extraction = refl

extract_deployment_artifact-IsExtracted_example :
    (x : IsExtracted memory on_disk
      (extracted_prefix prefix)
      small
      0
      0
      (delete_extracted_prefix memory on_disk 0 stored prefix)
      after_extraction
      1)
    × All (IsAtPath memory one_page on_disk 0 small prefix) x.written
extract_deployment_artifact-IsExtracted_example =
    extract_deployment_artifact-IsExtracted memory one_page on_disk 0 small prefix stored
      after_extraction 1 extraction

abbrev after_failure : Entries
after_failure = (codes "sites/0/deployments/1/artifact.tar.gz", codes "gz") ∷ []

failure :
    extract_deployment_artifact memory two_pages on_disk 0 small stored prefix
    ≡ (after_failure, err (extract_failed too_many_files))
unfolding extract_deployment_artifact extract_tar_members round read_member_limited
    delete_extracted_prefix delete_filesystem_tree delete_all overwrite artifact_key
    build_storage_key extracted_prefix strip strip_slashes starts_with normalize_relative_path
    normpath windows_absolute split join
failure = refl

extract_failed-nothing_left_example : memory.read after_failure old_page ≡ none
extract_failed-nothing_left_example =
    extract_failed-nothing_left memory two_pages on_disk 0 small prefix stored after_failure
      too_many_files old_page refl refl old_below failure

assert_hosting_access-request_access_example :
    assert_hosting_access settings 4 (request_access 0 4 1 empty_db).0
    ≡ assert_hosting_access settings 4 empty_db
assert_hosting_access-request_access_example =
    assert_hosting_access-request_access settings 0 4 1 4 empty_db

abbrev approval : CompanyHostingAccess
approval = record {
  company_id = 4;
  status = approved;
  requested_by_id = some 1;
  requested_at = 9;
  reviewed_by_id = some 1;
  reviewed_at = some 9;
  notes = codes "fine";
}

abbrev approved_db : Db
approved_db = record empty_db { access = approval ∷ [] }

review : update_access 9 4 (codes "approved") 1 (codes "fine") empty_db ≡ ok (approved_db, approval)
unfolding update_access access_status reviewed get_access find_access save_access
review = refl

assert_hosting_access-update_access_example : assert_hosting_access settings 4 approved_db ≡ (
    if 4 == 4
    then if settings.debug_open || text_eq (codes "approved") (codes "approved")
      then ok tt
      else err hosting_access_denied
    else assert_hosting_access settings 4 empty_db)
assert_hosting_access-update_access_example =
    assert_hosting_access-update_access settings 9 4 1 4 (codes "approved") (codes "fine") empty_db
      approved_db approval review

abbrev preview : App
preview = record {
  id = 0;
  name = codes "abc";
  slug = codes "abc";
  company_id = 4;
  display_name = [];
  created_by_id = some 1;
  expires_at = some 100;
  current_deployment = none;
  created_at = 0;
  updated_at = 0;
}

abbrev renewed_preview : App
renewed_preview = record preview { expires_at = some 1_209_650; updated_at = 50 }

abbrev with_preview : Db
with_preview = record empty_db { apps = insert 0 preview no_rows }

abbrev saved : Db
saved = record empty_db { apps = modify 0 (save_expiry renewed_preview) (insert 0 preview no_rows) }

abbrev fortnight : HostingSettings
fortnight = record settings { preview_ttl_days = 14 }

renewal : renew_app_expiry fortnight 50 preview with_preview ≡ ok (saved, renewed_preview)
unfolding renew_app_expiry is_preview_expired preview_expires_at ttl_days
renewal = refl

renew_app_expiry-lifetime_example :
    (renewed_preview ≡ record preview { expires_at = some (50 + 86_400 * 14); updated_at = 50 })
    × (saved.apps.row 0
        ≡ some (record preview { expires_at = some (50 + 86_400 * 14); updated_at = 50 }))
    × ((renew_app_expiry settings 2_000_000 renewed_preview saved ≡ err preview_expired)
        ↔ (50 + 86_400 * 14 ≤ 2_000_000))
renew_app_expiry-lifetime_example =
    renew_app_expiry-lifetime fortnight settings 50 2_000_000 14 preview renewed_preview preview
      with_preview saved saved (inr (omega arith, refl)) refl renewal

renew_app_expiry-expired_iff_example :
    (renew_app_expiry settings 100 preview empty_db ≡ err preview_expired) ↔ HasEnded 100 (some 100)
renew_app_expiry-expired_iff_example = renew_app_expiry-expired_iff settings 100 preview empty_db
