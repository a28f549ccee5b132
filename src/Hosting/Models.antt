-- ===== src/Hosting/Models.antt =====
-- apps/hosting/models.py: the rows and their tables. Points in time are seconds.
use hosting_service.Base.{
  ℕ, Bool, true, false, Option, none, some, List, [], ◌∷◌, Text, if◌then◌else◌, ◌==◌, keep, not,
}

pub data AccessStatus : Type 0 where
  pending approved denied : AccessStatus

pub record CompanyHostingAccess : Type 0 where
  pub company_id : ℕ
  pub status : AccessStatus
  pub requested_by_id : Option ℕ
  pub requested_at : ℕ
  pub reviewed_by_id : Option ℕ
  pub reviewed_at : Option ℕ
  pub notes : Text

pub data DeploymentStatus : Type 0 where
  draft uploading ready active superseded failed : DeploymentStatus

pub record App : Type 0 where
  pub id : ℕ
  pub name : Text
  pub slug : Text
  pub company_id : ℕ
  pub display_name : Text
  pub created_by_id : Option ℕ
  pub expires_at : Option ℕ
  pub current_deployment : Option ℕ
  pub created_at : ℕ
  pub updated_at : ℕ

pub record Deployment : Type 0 where
  pub id : ℕ
  pub app : ℕ
  pub app_version : Text
  pub shellui_version : Text
  pub status : DeploymentStatus
  pub pinned : Bool
  pub storage_prefix : Text
  pub deployed_by_id : Option ℕ
  pub artifact_size : ℕ
  pub created_at : ℕ
  pub updated_at : ℕ
  pub finalized_at : Option ℕ

-- A table: the row of each primary key, and the keys in use.
pub record Table (A : Type 0) : Type 0 where
  pub row : ℕ → Option A
  pub keys : List ℕ

module _ {A : Type 0} where
  abbrev pub no_rows : Table A
  no_rows = record { row = λ i. none; keys = [] }

  -- `objects.create` with a fresh key.
  abbrev pub insert : ℕ → A → Table A → Table A
  insert i a t = record { row = λ j. if i == j then some a else t.row j; keys = i ∷ t.keys }

  abbrev pub change : (A → A) → Option A → Option A
  change f none = none
  change f (some a) = some (f a)

  -- `UPDATE` of the row with a key, and of all rows that pass a test.
  abbrev pub modify : ℕ → (A → A) → Table A → Table A
  modify i f t = record t { row = λ j. if i == j then change f (t.row j) else t.row j }

  abbrev pub modify_where : (A → Bool) → (A → A) → Table A → Table A
  modify_where p f t = record t { row = λ j. change (λ a. if p a then f a else a) (t.row j) }

  abbrev pub add_selected : (A → Bool) → Option A → List A → List A
  add_selected p none rest = rest
  add_selected p (some a) rest = if p a then a ∷ rest else rest

  -- `filter(…)`, as the rows that pass.
  abbrev pub selected : (A → Bool) → (ℕ → Option A) → List ℕ → List A
  selected p row [] = []
  selected p row (i ∷ is) = add_selected p (row i) (selected p row is)

  abbrev pub filter_rows : (A → Bool) → Table A → List A
  filter_rows p t = selected p t.row t.keys

module _ {A : Type 0} where
  abbrev pub unless : Bool → Option A → Option A
  unless true o = none
  unless false o = o

  abbrev pub drop_if : (A → Bool) → Option A → Option A
  drop_if p none = none
  drop_if p (some a) = unless (p a) (some a)

  -- `DELETE` of the row with a key, and of all rows that pass a test.
  abbrev pub remove : ℕ → Table A → Table A
  remove i t = record {
    row = λ j. unless (i == j) (t.row j);
    keys = keep (λ j. not (i == j)) t.keys;
  }

  abbrev pub remove_where : (A → Bool) → Table A → Table A
  remove_where p t = record t { row = λ j. drop_if p (t.row j) }

abbrev pub option_eq : Option ℕ → Option ℕ → Bool
option_eq none none = true
option_eq none (some b) = false
option_eq (some a) none = false
option_eq (some a) (some b) = a == b

abbrev pub status_eq : DeploymentStatus → DeploymentStatus → Bool
status_eq draft draft = true
status_eq uploading uploading = true
status_eq ready ready = true
status_eq active active = true
status_eq superseded superseded = true
status_eq failed failed = true
status_eq _ _ = false

-- Who caused an event.
pub record Actor : Type 0 where
  pub user_id : ℕ
  pub email : Text

pub data EventType : Type 0 where
  app_created app_deleted deployment_created deployment_succeeded deployment_failed : EventType

-- A call of `emit_event_if_rules`: the type, the company, and what the payload is built from.
pub record Event : Type 0 where
  pub event_type : EventType
  pub company_id : ℕ
  pub app : App
  pub deployment : Option Deployment
  pub actor : Option Actor

-- A call of `upsert_hosting_oauth_redirect`.
pub record RedirectSync : Type 0 where
  pub slug : Text
  pub access_token : Option Text

-- The database, with the calls that leave the hosting app in their order.
pub record Db : Type 0 where
  pub access : List CompanyHostingAccess
  pub apps : Table App
  pub deployments : Table Deployment
  pub events : List Event
  pub syncs : List RedirectSync

abbrev pub empty_db : Db
empty_db = record { access = []; apps = no_rows; deployments = no_rows; events = []; syncs = [] }

-- What services.py reads of the settings.
pub record HostingSettings : Type 0 where
  pub debug_open : Bool
  pub preview_ttl_days : ℕ
  pub max_apps_per_company : ℕ
  pub max_deployments_per_app : ℕ
  pub max_upload_bytes : ℕ

-- The codes of `HostingError`, and the `ValueError`s that pass through services.py.
pub data HostingError : Type 0 where
  missing_company hosting_access_denied not_preview preview_expired app_not_found : HostingError
  preview_not_found preview_forbidden deploy_token_preview_only app_quota_exceeded : HostingError
  app_name_taken deployment_quota_exceeded invalid_deployment_status upload_too_large : HostingError
  artifact_extract_failed artifact_missing invalid_slug invalid_name invalid_version : HostingError
  slugs_exhausted artifact_too_large invalid_status : HostingError
