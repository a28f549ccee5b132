-- ===== src/Hosting/Apps/Quota.antt =====
-- `create_preview_app` and its quota in apps/hosting/services.py.
use hosting_service.Base.{
  ℕ, suc, ◌≤◌, ◌≡◌, ◌≢◌, refl, subst, ◌∙◌, Bool, false, Option, some, List, [], ◌∷◌, arith, Text,
  length, All, ==_iff, if◌then◌else◌, ◌==◌, leb, Unicode, Result, ok, err, bind-eq-ok,
  raise_if-eq-ok, ok-injective,
}
use hosting_service.Hosting.Models.{
  App, Table, insert, selected, add_selected, filter_rows, Actor, Db, HostingSettings,
}
use hosting_service.Hosting.Access.{assert_hosting_access}
use hosting_service.Hosting.Deployments.{action_actor}
use hosting_service.Hosting.Apps.{
  counts_for, active_app_count, slug_exists, or_exhausted, public_slug, label_or, new_app, add_app,
  create_preview_app,
}
use hosting_service.Hosting.Slug.{Secrets, Exhausted, generate_public_slug, validate_slug}
use hosting_service.Hosting.Slug.Generated.{generate_public_slug-valid}

-- A key that no row has.
abbrev pub IsFresh : {A : Type 0} → ℕ → Table A → Type 0
IsFresh id t = All (λ j. j ≢ id) t.keys

module _ {A : Type 0} (p : A → Bool) (id : ℕ) (a : A) (row : ℕ → Option A) where
  selected-insert :
      (is : List ℕ)
      → All (λ j. j ≢ id) is
      → selected p (λ j. if id == j then some a else row j) is ≡ selected p row is
  selected-insert [] h = refl
  selected-insert (i ∷ is) (n, h) = ground (arith, selected-insert is h, n)

count-add :
    {A : Type 0} (p : A → Bool) (a : A) (rows rows' : List A)
    → rows' ≡ rows
    → length (add_selected p (some a) rows') ≡ (if p a then suc (length rows) else length rows)
count-add p a rows rows' e = rw e (ground arith)

count-insert :
    {A : Type 0} (p : A → Bool) (id : ℕ) (a : A) (t : Table A)
    → All (λ j. j ≢ id) t.keys
    → length (filter_rows p (insert id a t))
      ≡ (if p a then suc (length (filter_rows p t)) else length (filter_rows p t))
count-insert {A} p id a t h =
    rw ((==_iff id id).1 refl) (count-add p a _ _ (selected-insert p id a t.row t.keys h))

or_exhausted-eq-ok : (g : Result Exhausted Text) (s : Text) → or_exhausted g ≡ ok s → g ≡ ok s
or_exhausted-eq-ok (ok t) s h = ground arith
or_exhausted-eq-ok (err e) s h = cc

public_slug-valid :
    (u : Unicode) (r : Secrets) (db : Db) (s : Text)
    → public_slug r db ≡ ok s
    → (slug_exists db s ≡ false) × (validate_slug u s ≡ ok s)
public_slug-valid u r db s h =
    let (free, _, valid) =
      generate_public_slug-valid u r (slug_exists db) s
        (or_exhausted-eq-ok (generate_public_slug r (slug_exists db)) s h) in
    (free, valid)

-- What `create_preview_app` has done when it returns.
pub record IsCreated (u : Unicode) (cfg : HostingSettings) (now id company user : ℕ) (db db' : Db)
    (app : App) : Type 0 where
  pub allowed : assert_hosting_access cfg company db ≡ ok tt
  pub counted : active_app_count now company db' ≡ suc (active_app_count now company db)
  pub within_quota : active_app_count now company db' ≤ cfg.max_apps_per_company
  pub stored : db'.apps.row id ≡ some app
  pub owned : (app.company_id ≡ company) × (app.created_by_id ≡ some user)
  pub new_slug : slug_exists db app.slug ≡ false
  pub valid_slug : validate_slug u app.slug ≡ ok app.slug

one_more :
    (now id company user : ℕ) (slug label : Text) (actor : Option Actor) (db : Db)
    → IsFresh id db.apps
    → active_app_count now company
        (add_app (new_app now id slug slug company label (some user)) actor db)
      ≡ suc (active_app_count now company db)
unfolding active_app_count
one_more now id company user slug label actor db fresh =
    let app = new_app now id slug slug company label (some user) in
    count-insert (counts_for now company) id app db.apps fresh
    ∙ ground (arith, (==_iff company company).1 refl)

made_IsCreated :
    (u : Unicode) (cfg : HostingSettings) (r : Secrets) (now id company user : ℕ)
    (slug label : Text) (actor : Option Actor) (db : Db)
    → IsFresh id db.apps
    → assert_hosting_access cfg company db ≡ ok tt
    → leb cfg.max_apps_per_company (active_app_count now company db) ≡ false
    → public_slug r db ≡ ok slug
    → IsCreated u cfg now id company user db
        (add_app (new_app now id slug slug company label (some user)) actor db)
        (new_app now id slug slug company label (some user))
made_IsCreated u cfg r now id company user slug label actor db fresh access room drawn =
    let counted = one_more now id company user slug label actor db fresh in
    record {
      allowed = access;
      counted = counted;
      within_quota = rw counted (ground arith);
      stored = ground arith;
      owned = (refl, refl);
      new_slug = (public_slug-valid u r db slug drawn).0;
      valid_slug = (public_slug-valid u r db slug drawn).1;
    }

-- `create_preview_app` makes an app only for a company that may host and is below its quota, which
-- the new app, counted as active, does not exceed; its slug is unused and valid.
pub create_preview_app-IsCreated :
    (u : Unicode) (cfg : HostingSettings) (r : Secrets) (now id company user : ℕ)
    (display_name actor_email : Text) (db db' : Db) (app : App)
    → IsFresh id db.apps
    → create_preview_app cfg r now id company user display_name actor_email db ≡ ok (db', app)
    → IsCreated u cfg now id company user db db' app
unfolding create_preview_app
create_preview_app-IsCreated u cfg r now id company user display_name actor_email db db' app fresh
      h =
    let (_, access, h1) = bind-eq-ok (assert_hosting_access cfg company db) _ h in
    let (room, h2) =
      raise_if-eq-ok (leb cfg.max_apps_per_company (active_app_count now company db)) _ _ h1 in
    let (slug, drawn, h3) = bind-eq-ok (public_slug r db) _ h2 in
    let made = new_app now id slug slug company (label_or display_name slug) (some user) in
    subst (λ (q : Db × App). IsCreated u cfg now id company user db q.0 q.1) (ok-injective _ _ h3)
      (made_IsCreated u cfg r now id company user slug (label_or display_name slug)
        (action_actor (some user) actor_email) db fresh access room drawn)
