-- ===== src/Hosting/Lifecycle/Creating.antt =====
-- The calls of apps/hosting/services.py that create or extend, on the tables.
use hosting_service.Base.{
  ℕ, ◌≡◌, refl, ap, subst, ◌∙◌, inl, inr, Bool, false, not, ◌&&◌, Option, none, some, arith, Text,
  strip, is_empty, Bool-cases, Option-cases, Unicode, ok, bind-eq-ok, raise_if-eq-ok, ok-injective,
}
use hosting_service.Hosting.Models.{
  App, Deployment, Table, insert, modify, Actor, Db, HostingSettings, not_preview, preview_expired,
}
use hosting_service.Hosting.Access.{assert_hosting_access}
use hosting_service.Hosting.Expiry.{is_some, save_expiry, is_preview_expired, preview_expires_at}
use hosting_service.Hosting.Deployments.{
  Site, action_actor, create_deployment, new_deployment, valid_version,
}
use hosting_service.Hosting.Apps.{
  valid_name, resolve_preview_app, public_slug, label_or, new_app, add_app, create_preview_app,
  create_app, PreviewRequest, preview_app, prepare_preview_deploy,
}
use hosting_service.Hosting.Deployments.Consistent.{insert-IsConsistent, apps-IsConsistent}
use hosting_service.Hosting.Slug.{Secrets}
use hosting_service.Hosting.Expiry.{renew_app_expiry}
use hosting_service.Hosting.Lifecycle.Activating.{DbIsConsistent}

-- A new app has no current deployment.
add_app-IsConsistent :
    (app : App) (actor : Option Actor) (db : Db)
    → DbIsConsistent db
    → db.apps.row app.id ≡ none
    → app.current_deployment ≡ none
    → DbIsConsistent (add_app app actor db)
add_app-IsConsistent app actor db c fresh idle =
    apps-IsConsistent db.apps (insert app.id app db.apps) db.deployments c
      (λ i j. ground (arith, fresh, idle)) (λ j a h. ground (arith, c.app_keys j a))

pub create_app-IsConsistent :
    (cfg : HostingSettings) (u : Unicode) (r : Secrets) (now id company : ℕ)
    (name display_name token : Text) (user : Option ℕ) (email : Text) (db db' : Db) (app : App)
    → DbIsConsistent db
    → db.apps.row id ≡ none
    → create_app cfg u r now id company name display_name token user email db ≡ ok (db', app)
    → DbIsConsistent db'
unfolding create_app
create_app-IsConsistent cfg u r now id company name display_name token user email db db' app c fresh
      h =
    let (_, _, h1) = bind-eq-ok (assert_hosting_access cfg company db) _ h in
    let (_, h2) = raise_if-eq-ok _ _ _ h1 in
    let (normalized, _, h3) = bind-eq-ok (valid_name u name) _ h2 in
    let (_, h4) = raise_if-eq-ok _ _ _ h3 in
    let (slug, _, h5) = bind-eq-ok (public_slug r db) _ h4 in
    subst (λ (q : Db × App). DbIsConsistent q.0) (ok-injective _ _ h5)
      (add_app-IsConsistent
        (new_app now id normalized slug company (label_or display_name normalized) none)
        (action_actor user email) db c fresh refl)

create_preview-IsConsistent :
    (cfg : HostingSettings) (r : Secrets) (now id company user : ℕ) (display_name email : Text)
    (db db' : Db) (app : App)
    → DbIsConsistent db
    → db.apps.row id ≡ none
    → create_preview_app cfg r now id company user display_name email db ≡ ok (db', app)
    → DbIsConsistent db' × (db'.deployments ≡ db.deployments)
unfolding create_preview_app
create_preview-IsConsistent cfg r now id company user display_name email db db' app c fresh h =
    let (_, _, h1) = bind-eq-ok (assert_hosting_access cfg company db) _ h in
    let (_, h2) = raise_if-eq-ok _ _ _ h1 in
    let (slug, _, h3) = bind-eq-ok (public_slug r db) _ h2 in
    subst (λ (q : Db × App). DbIsConsistent q.0 × (q.0.deployments ≡ db.deployments))
      (ok-injective _ _ h3)
      (
        add_app-IsConsistent
            (new_app now id slug slug company (label_or display_name slug) (some user))
            (action_actor (some user) email) db c fresh refl,
        refl,
      )

pub create_deployment-IsConsistent :
    (site : Site) (now id : ℕ) (app : App) (v s : Text) (user : ℕ) (pinned : Bool) (email : Text)
    (db db' : Db) (d : Deployment)
    → DbIsConsistent db
    → db.deployments.row id ≡ none
    → create_deployment site now id app v s user pinned email db ≡ ok (db', d)
    → DbIsConsistent db'
unfolding create_deployment new_deployment
create_deployment-IsConsistent site now id app v s user pinned email db db' d c fresh h =
    let (_, _, h1) = bind-eq-ok (assert_hosting_access site.settings app.company_id db) _ h in
    let (_, h2) = raise_if-eq-ok _ _ _ h1 in
    let (_, _, h3) = bind-eq-ok (valid_version site.unicode v) _ h2 in
    let (_, _, h4) = bind-eq-ok (valid_version site.unicode s) _ h3 in
    subst (λ (q : Db × Deployment). DbIsConsistent q.0) (ok-injective _ _ h4)
      (insert-IsConsistent db.apps db.deployments (new_deployment site now id app v s user pinned) c
        fresh refl)

preview_app-IsConsistent :
    (site : Site) (r : Secrets) (now app_id : ℕ) (q : PreviewRequest) (db db' : Db) (app : App)
    → DbIsConsistent db
    → db.apps.row app_id ≡ none
    → preview_app site r now app_id q db ≡ ok (db', app)
    → DbIsConsistent db' × (db'.deployments ≡ db.deployments)
preview_app-IsConsistent site r now app_id q db db' app c fresh h =
    elim (Bool-cases (is_empty (strip q.slug))) [
      | inl new ↦
          create_preview-IsConsistent site.settings r now app_id q.company q.user q.display_name
            q.actor_email db db' app c fresh (rw new at h)
      | inr old ↦
          let (found, _, e) =
            bind-eq-ok
              (resolve_preview_app site.unicode (strip q.slug) q.company q.user q.any_user db) _
              (rw old at h) in
          subst (λ (p : Db × App). DbIsConsistent p.0 × (p.0.deployments ≡ db.deployments))
            (ok-injective _ _ e) (c, refl)
    ]

pub prepare-IsConsistent :
    (site : Site) (r : Secrets) (now app_id id : ℕ) (q : PreviewRequest) (db db' : Db) (app : App)
    (d : Deployment)
    → DbIsConsistent db
    → db.apps.row app_id ≡ none
    → db.deployments.row id ≡ none
    → prepare_preview_deploy site r now app_id id q db ≡ ok (db', app, d)
    → DbIsConsistent db'
unfolding prepare_preview_deploy
prepare-IsConsistent site r now app_id id q db db' app d c fresh_app fresh h =
    let (found, made, h1) = bind-eq-ok (preview_app site r now app_id q db) _ h in
    let (c1, same) =
      preview_app-IsConsistent site r now app_id q db found.0 found.1 c fresh_app made in
    let (created, built, h2) =
      bind-eq-ok
        (create_deployment site now id found.1 q.app_version q.shellui_version q.user false
          q.actor_email found.0)
        _ h1 in
    subst (λ (p : Db × App × Deployment). DbIsConsistent p.0) (ok-injective _ _ h2)
      (create_deployment-IsConsistent site now id found.1 q.app_version q.shellui_version q.user
        false q.actor_email found.0 created.0 created.1 c1
        (ap (λ (t : Table Deployment). t.row id) same ∙ fresh) built)

-- A saved row keeps its key.
modify-keys :
    (i : ℕ) (f : App → App) (apps : Table App)
    → ((j : ℕ) (a : App) → apps.row j ≡ some a → a.id ≡ j)
    → ((a : App) → (f a).id ≡ a.id)
    → (j : ℕ) (a : App) → (modify i f apps).row j ≡ some a
    → a.id ≡ j
modify-keys i f apps keys same j a e = elim (Option-cases (apps.row j)) [
  | inl gone ↦ ground (arith, gone)
  | inr (old, there) ↦ ground (arith, there, keys j old there, same old)
]

pub extend-IsConsistent :
    (cfg : HostingSettings) (now : ℕ) (app app' : App) (db db' : Db)
    → DbIsConsistent db
    → db.apps.row app.id ≡ some app
    → renew_app_expiry cfg now app db ≡ ok (db', app')
    → DbIsConsistent db'
unfolding renew_app_expiry
extend-IsConsistent cfg now app app' db db' c row h =
    let (_, h1) =
      raise_if-eq-ok (not (is_some app.created_by_id) && not (is_some app.expires_at)) not_preview _
        h in
    let extended = record app {
      expires_at = some (preview_expires_at cfg now);
      updated_at = now;
    } in
    let (_, h2) = raise_if-eq-ok (is_preview_expired now app) preview_expired _ h1 in
    subst (λ (q : Db × App). DbIsConsistent q.0) (ok-injective _ _ h2)
      (apps-IsConsistent db.apps (modify app.id (save_expiry extended) db.apps) db.deployments c
        (λ i j. ground arith)
        (modify-keys app.id (save_expiry extended) db.apps c.app_keys (λ a. refl)))
