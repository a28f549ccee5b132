-- ===== src/Hosting/Lifecycle/Reachable.antt =====
-- The calls of apps/hosting/services.py as steps, and the states that they reach.
use hosting_service.Base.{
  ℕ, ◌≡◌, refl, ap, subst, ◌∙◌, inl, inr, Bool, true, Option, none, some, List, Text, Option-cases,
  ==_iff, ok, ok-injective,
}
use hosting_service.Hosting.Models.{
  DeploymentStatus, draft, uploading, ready, active, superseded, failed, App, Deployment, Table,
  option_eq, Db, empty_db, CompanyHostingAccess,
}
use hosting_service.Hosting.Storage.{Bytes}
use hosting_service.Hosting.Deployments.{
  Site, Cache, World, create_deployment, upload_deployment_artifact,
}
use hosting_service.Hosting.Deployments.Activation.{finalize_deployment, rollback_deployment}
use hosting_service.Hosting.Apps.{create_app, PreviewRequest, prepare_preview_deploy}
use hosting_service.Hosting.Deployments.Consistent.{is_active, is_current, points_to}
use hosting_service.Hosting.Slug.{Secrets}
use hosting_service.Hosting.Access.{request_access, update_access, access_status}
use hosting_service.Hosting.Expiry.{renew_app_expiry}
use hosting_service.Hosting.Lifecycle.Activating.{IsLoaded, DbIsConsistent}
use hosting_service.Hosting.Lifecycle.Finalizing.{
  finalize-IsConsistent, rollback-IsConsistent, upload-IsConsistent,
}
use hosting_service.Hosting.Lifecycle.Creating.{
  create_app-IsConsistent, prepare-IsConsistent, create_deployment-IsConsistent,
  extend-IsConsistent,
}
use hosting_service.Hosting.Deletion.{delete_app}
use hosting_service.Hosting.Lifecycle.Deleting.{delete-IsConsistent}

-- One call. Objects are read before it, and new keys are fresh.
pub data Step (site : Site) : World site → World site → Type 0 where
  request :
      (now company user : ℕ) (w : World site)
      → Step site w (record w { db = (request_access now company user w.db).0 })
  review :
      (now company reviewer : ℕ) (status notes : Text) (w : World site) (db' : Db)
      (r : CompanyHostingAccess)
      → update_access now company status reviewer notes w.db ≡ ok (db', r)
      → Step site w (record w { db = db' })
  make_app :
      (r : Secrets) (now id company : ℕ) (name display_name token : Text) (user : Option ℕ)
      (email : Text) (w : World site) (db' : Db) (app : App)
      → w.db.apps.row id ≡ none
      → create_app site.settings site.unicode r now id company name display_name token user email
          w.db
        ≡ ok (db', app)
      → Step site w (record w { db = db' })
  prepare :
      (r : Secrets) (now app_id id : ℕ) (q : PreviewRequest) (w : World site) (db' : Db) (app : App)
      (d : Deployment)
      → w.db.apps.row app_id ≡ none
      → w.db.deployments.row id ≡ none
      → prepare_preview_deploy site r now app_id id q w.db ≡ ok (db', app, d)
      → Step site w (record w { db = db' })
  make_deployment :
      (now id : ℕ) (app : App) (app_version shellui_version : Text) (user : ℕ) (pinned : Bool)
      (email : Text) (w : World site) (db' : Db) (d : Deployment)
      → w.db.deployments.row id ≡ none
      → create_deployment site now id app app_version shellui_version user pinned email w.db
        ≡ ok (db', d)
      → Step site w (record w { db = db' })
  upload :
      (now : ℕ) (d d' : Deployment) (chunks : List Bytes) (content_length : Option ℕ)
      (w w' : World site)
      → w.db.deployments.row d.id ≡ some d
      → upload_deployment_artifact site now d chunks content_length w ≡ ok (w', d')
      → Step site w w'
  finalize :
      (now : ℕ) (d : Deployment) (app : App) (user : Option ℕ) (email token : Text) (w : World site)
      → IsLoaded w.db d app
      → Step site w (finalize_deployment site now d app user email token w).0
  roll_back :
      (now : ℕ) (d d' : Deployment) (app : App) (w w' : World site)
      → IsLoaded w.db d app
      → rollback_deployment site now d app w ≡ ok (w', d')
      → Step site w w'
  extend :
      (now : ℕ) (app app' : App) (w : World site) (db' : Db)
      → w.db.apps.row app.id ≡ some app
      → renew_app_expiry site.settings now app w.db ≡ ok (db', app')
      → Step site w (record w { db = db' })
  delete_it :
      (origin : App → Option Text) (app : App) (user : Option ℕ) (email : Text) (w : World site)
      → Step site w (delete_app site origin app user email w).0

pub data Reach (site : Site) (s : World site) : World site → Type 0 where
  here : Reach site s s
  next : {v w : World site} → Reach site s v → Step site v w → Reach site s w

review-same :
    (now company reviewer : ℕ) (status notes : Text) (db db' : Db) (r : CompanyHostingAccess)
    → update_access now company status reviewer notes db ≡ ok (db', r)
    → DbIsConsistent db
    → DbIsConsistent db'
unfolding update_access
review-same now company reviewer status notes db db' r h c =
    elim (Option-cases (access_status status)) [
      | inl unknown ↦ cc (rw unknown at h)
      | inr (st, known) ↦
          subst (λ (q : Db × CompanyHostingAccess). DbIsConsistent q.0)
            (ok-injective _ _ (rw known at h)) c
    ]

Step-IsConsistent :
    {site : Site} {v w : World site} → Step site v w → DbIsConsistent v.db → DbIsConsistent w.db
unfolding request_access
Step-IsConsistent (request now company user w) c = c
Step-IsConsistent (review now company reviewer status notes w db' r h) c =
    review-same now company reviewer status notes w.db db' r h c
Step-IsConsistent {site} (make_app r now id company name label token user email w db' app fresh h)
      c =
    create_app-IsConsistent site.settings site.unicode r now id company name label token user email
      w.db db' app c fresh h
Step-IsConsistent {site} (prepare r now app_id id q w db' app d fresh_app fresh h) c =
    prepare-IsConsistent site r now app_id id q w.db db' app d c fresh_app fresh h
Step-IsConsistent {site} (make_deployment now id app v s user pinned email w db' d fresh h) c =
    create_deployment-IsConsistent site now id app v s user pinned email w.db db' d c fresh h
Step-IsConsistent {site} (upload now d d' chunks content_length w w' row h) c =
    upload-IsConsistent site now d d' chunks content_length w w' c row h
Step-IsConsistent {site} (finalize now d app user email token w l) c =
    finalize-IsConsistent site now d app user email token w c l
Step-IsConsistent {site} (roll_back now d d' app w w' l h) c =
    rollback-IsConsistent site now d d' app w w' c l h
Step-IsConsistent {site} (extend now app app' w db' row h) c =
    extend-IsConsistent site.settings now app app' w.db db' c row h
Step-IsConsistent {site} (delete_it origin app user email w) c =
    delete-IsConsistent site origin app user email w c

Reach-IsConsistent :
    {site : Site} {s w : World site} → Reach site s w → DbIsConsistent s.db → DbIsConsistent w.db
Reach-IsConsistent here c = c
Reach-IsConsistent (next r step) c = Step-IsConsistent step (Reach-IsConsistent r c)

empty-IsConsistent : DbIsConsistent empty_db
empty-IsConsistent = record {
  app_keys = λ j a h. cc;
  deployment_keys = λ i d h. cc;
  active_iff_current = λ i d h. cc;
  current_exists = λ j a i h k. cc;
}

-- Whatever calls were made from an empty database, in whatever order: a deployment is active exactly
-- if it is the current deployment of its app.
pub Reach-active_iff_current :
    (site : Site) (files : site.storage.Files) (cache : Cache) (w : World site) (i : ℕ)
    (d : Deployment)
    → Reach site (record { db = empty_db; files = files; cache = cache }) w
    → w.db.deployments.row i ≡ some d
    → is_active d.status ≡ is_current w.db.apps i d.app
Reach-active_iff_current site files cache w i d r h =
    (Reach-IsConsistent r empty-IsConsistent).active_iff_current i d h

is_active-active : (s : DeploymentStatus) → is_active s ≡ true → s ≡ active
is_active-active active h = refl
is_active-active draft h = cc
is_active-active uploading h = cc
is_active-active ready h = cc
is_active-active superseded h = cc
is_active-active failed h = cc

current_of :
    (apps : Table App) (i k j : ℕ) (app : App)
    → k ≡ j
    → apps.row j ≡ some app
    → app.current_deployment ≡ some i
    → is_current apps i k ≡ true
current_of apps i k j app own row current =
    ap (λ k. is_current apps i k) own
    ∙ ap (points_to i) row
    ∙ ap (λ o. option_eq o (some i)) current
    ∙ (==_iff i i).1 refl

-- And the deployment that an app calls its current one is stored, is the app's own, and is active.
pub current_deployment-active :
    (site : Site) (files : site.storage.Files) (cache : Cache) (w : World site) (j i : ℕ)
    (app : App)
    → Reach site (record { db = empty_db; files = files; cache = cache }) w
    → w.db.apps.row j ≡ some app
    → app.current_deployment ≡ some i
    → (d : Deployment) × (w.db.deployments.row i ≡ some d) × (d.app ≡ j) × (d.status ≡ active)
current_deployment-active site files cache w j i app r row current =
    let c = Reach-IsConsistent r empty-IsConsistent in
    let (d, there, own) = c.current_exists j app i row current in
    (
      d,
      there,
      own,
      is_active-active d.status
          (c.active_iff_current i d there ∙ current_of w.db.apps i d.app j app own row current),
    )
