-- ===== src/Hosting/Apps.antt =====
-- The apps of apps/hosting/services.py: references, quotas, creation, and preview deploys.
pub mod Ownership
pub mod Quota
use hosting_service.Base.{
  ℕ, ◌+◌, Bool, true, false, not, ◌&&◌, Option, none, some, List, [], ◌∷◌, ◌++◌, Text, text_eq,
  strip, length, is_empty, if◌then◌else◌, ◌==◌, leb, Unicode, Result, ok, err, ◌>>=◌, ◌>>◌,
  raise_if,
}
use hosting_service.Hosting.Models.{
  DeploymentStatus, draft, uploading, ready, active, superseded, failed, App, Deployment, Table,
  no_rows, insert, change, modify, modify_where, selected, filter_rows, option_eq, status_eq, Actor,
  EventType, app_created, deployment_created, deployment_succeeded, deployment_failed, Event,
  RedirectSync, Db, empty_db, HostingSettings, HostingError, missing_company, hosting_access_denied,
  not_preview, preview_expired, app_not_found, preview_not_found, preview_forbidden,
  deploy_token_preview_only, app_quota_exceeded, app_name_taken, deployment_quota_exceeded,
  invalid_deployment_status, upload_too_large, artifact_extract_failed, artifact_missing,
  invalid_slug, invalid_name, invalid_version, slugs_exhausted, CompanyHostingAccess,
}
use hosting_service.Hosting.Access.{assert_hosting_access}
use hosting_service.Hosting.Expiry.{
  renewed, renew_preview_expiry, is_some, save_expiry, expired_at, is_preview_expired,
  preview_expires_at, is_preview_app,
}
use hosting_service.Hosting.Deployments.{
  Site, Cache, World, invalidate_serve_cache, action_actor, event, emit, create_deployment,
  new_deployment, upload_deployment_artifact, uploaded, accepts_upload, save_upload, over_limit,
  of_app, valid_version,
}
use hosting_service.Hosting.Slug.{
  Secrets, Exhausted, generate_public_slug, validate_slug, validate_app_name,
}

abbrev pub head? {ℓ} : {A : Type ℓ} → List A → Option A
head? [] = none
head? (x ∷ xs) = some x

-- `App.objects.filter(…).first()`
unfoldable pub find_app : (App → Bool) → Db → Option App
find_app p db = head? (filter_rows p db.apps)

abbrev pub has_slug : Text → App → Bool
has_slug slug app = text_eq app.slug slug

abbrev pub or_error {ℓ} : {A : Type ℓ} → HostingError → Option A → Result HostingError A
or_error e none = err e
or_error e (some a) = ok a

abbrev pub in_company : Option ℕ → App → Bool
in_company none app = true
in_company (some company) app = app.company_id == company

abbrev pub or_else : Option App → Option App → Option App
or_else (some a) other = some a
or_else none other = other

abbrev pub referred : Db → Option ℕ → Text → Option ℕ → Option App
referred db company ref (some id) = find_app (λ a. in_company company a && a.id == id) db
referred db company ref none =
    or_else (find_app (λ a. in_company company a && text_eq a.name ref) db)
      (find_app (λ a. in_company company a && text_eq a.slug ref) db)

-- `parse_uuid` is `uuid.UUID(ref)`, or `none` where it raises.
unfoldable pub resolve_app_ref : (Text → Option ℕ) → Text → Option ℕ → Db → Result HostingError App
resolve_app_ref parse_uuid app_ref company db =
    let ref = strip app_ref in
    if is_empty ref
    then err app_not_found
    else or_error app_not_found (referred db company ref (parse_uuid ref))

abbrev pub valid_slug : Unicode → Text → Result HostingError Text
valid_slug u slug = elim (validate_slug u slug) [ ok s ↦ ok s | err _ ↦ err invalid_slug ]

abbrev pub valid_name : Unicode → Text → Result HostingError Text
valid_name u name = elim (validate_app_name u name) [ ok s ↦ ok s | err _ ↦ err invalid_name ]

abbrev pub of_another : Option ℕ → ℕ → Bool
of_another none user = false
of_another (some creator) user = not (creator == user)

unfoldable pub resolve_preview_app : Unicode → Text → ℕ → ℕ → Bool → Db → Result HostingError App
resolve_preview_app u slug company user any_user db = do
  normalized ← valid_slug u slug
  app ← or_error preview_not_found (find_app (has_slug normalized) db)
  raise_if (not (app.company_id == company)) preview_forbidden
  raise_if (any_user && not (is_preview_app app)) deploy_token_preview_only
  raise_if (not any_user && of_another app.created_by_id user) preview_forbidden
  ok app

abbrev pub counts_for : ℕ → ℕ → App → Bool
counts_for now company app = app.company_id == company && not (expired_at now app.expires_at)

unfoldable pub active_app_count : ℕ → ℕ → Db → ℕ
active_app_count now company db = length (filter_rows (counts_for now company) db.apps)

abbrev pub slug_exists : Db → Text → Bool
slug_exists db slug = not (is_empty (filter_rows (has_slug slug) db.apps))

abbrev pub or_exhausted : Result Exhausted Text → Result HostingError Text
or_exhausted (ok s) = ok s
or_exhausted (err _) = err slugs_exhausted

abbrev pub public_slug : Secrets → Db → Result HostingError Text
public_slug r db = or_exhausted (generate_public_slug r (slug_exists db))

-- `(display_name or '').strip() or …`
abbrev pub label_or : Text → Text → Text
label_or display_name other = if is_empty (strip display_name) then other else strip display_name

abbrev pub new_app : ℕ → ℕ → Text → Text → ℕ → Text → Option ℕ → App
new_app now id name slug company label creator = record {
  id = id;
  name = name;
  slug = slug;
  company_id = company;
  display_name = label;
  created_by_id = creator;
  expires_at = none;
  current_deployment = none;
  created_at = now;
  updated_at = now;
}

abbrev pub add_app : App → Option Actor → Db → Db
add_app app actor db =
    emit (event app_created app none actor) (record db { apps = insert app.id app db.apps })

-- `id` is the new primary key.
unfoldable pub create_preview_app :
    HostingSettings → Secrets → ℕ → ℕ → ℕ → ℕ → Text → Text → Db → Result HostingError (Db × App)
unfolding action_actor
create_preview_app cfg r now id company user display_name actor_email db = do
  assert_hosting_access cfg company db
  raise_if (leb cfg.max_apps_per_company (active_app_count now company db)) app_quota_exceeded
  slug ← public_slug r db
  let app = new_app now id slug slug company (label_or display_name slug) (some user)
  ok (add_app app (action_actor (some user) actor_email) db, app)

-- `upsert_hosting_oauth_redirect`, with `(access_token or '').strip() or None`
abbrev pub sync_app : App → Text → Db → Db
sync_app app token db = record db {
  syncs =
      db.syncs
      ++ record {
        slug = app.slug;
        access_token = if is_empty (strip token) then none else some (strip token);
      }
        ∷ [];
}

abbrev pub with_name : Text → ℕ → App → Bool
with_name name company app = app.company_id == company && text_eq app.name name

unfoldable pub create_app :
    HostingSettings
    → Unicode
    → Secrets
    → ℕ
    → ℕ
    → ℕ
    → Text
    → Text
    → Text
    → Option ℕ
    → Text
    → Db
    → Result HostingError (Db × App)
unfolding action_actor
create_app cfg u r now id company name display_name access_token user actor_email db = do
  assert_hosting_access cfg company db
  raise_if
      (leb cfg.max_apps_per_company (length (filter_rows (λ a. a.company_id == company) db.apps)))
      app_quota_exceeded
  normalized ← valid_name u name
  raise_if (not (is_empty (filter_rows (with_name normalized company) db.apps))) app_name_taken
  slug ← public_slug r db
  let app = new_app now id normalized slug company (label_or display_name normalized) none
  ok (sync_app app access_token (add_app app (action_actor user actor_email) db), app)

-- What a request asks of a preview deploy.
pub record PreviewRequest : Type 0 where
  pub company : ℕ
  pub user : ℕ
  pub slug : Text
  pub display_name : Text
  pub app_version : Text
  pub shellui_version : Text
  pub actor_email : Text
  pub access_token : Text
  pub any_user : Bool

abbrev pub preview_app :
    Site → Secrets → ℕ → ℕ → PreviewRequest → Db → Result HostingError (Db × App)
preview_app site r now id q db =
    if is_empty (strip q.slug)
    then create_preview_app site.settings r now id q.company q.user q.display_name q.actor_email db
    else (do
      app ← resolve_preview_app site.unicode (strip q.slug) q.company q.user q.any_user db
      ok (db, app))

-- `prepare_preview_deploy`, with the transaction that it makes: where that raises, it is rolled back.
unfoldable pub prepare_preview_deploy :
    Site → Secrets → ℕ → ℕ → ℕ → PreviewRequest → Db → Result HostingError (Db × App × Deployment)
prepare_preview_deploy site r now app_id deployment_id q db = do
  found ← preview_app site r now app_id q db
  created ←
      create_deployment site now deployment_id found.1 q.app_version q.shellui_version q.user false
        q.actor_email found.0
  ok (sync_app found.1 q.access_token created.0, found.1, created.1)
