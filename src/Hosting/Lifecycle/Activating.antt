-- ===== src/Hosting/Lifecycle/Activating.antt =====
-- `_activate_deployment` and `_mark_deployment_failed` of apps/hosting/services.py on the tables.
use hosting_service.Base.{
  ℕ, ◌≡◌, refl, inl, inr, false, Option, some, arith, Bool-cases, ◌==◌, Result, ok, err,
}
use hosting_service.Hosting.Models.{active, failed, App, Deployment, Table, modify, Actor, Db}
use hosting_service.Hosting.Extract.{ArtifactError, artifact_not_found, extract_failed}
use hosting_service.Hosting.Expiry.{is_some, save_expiry, preview_expires_at}
use hosting_service.Hosting.Deployments.{Site, World}
use hosting_service.Hosting.Deployments.Activation.{
  can_finalize, switch_deployments, save_current, set_current, publish, activated,
  activate_deployment, save_status, mark_deployment_failed,
}
use hosting_service.Hosting.Deployments.Consistent.{
  is_active, IsConsistent, switch-IsConsistent, modify-IsConsistent,
}

-- A deployment object that was just read, with its app.
pub record IsLoaded (db : Db) (d : Deployment) (app : App) : Type 0 where
  pub row : db.deployments.row d.id ≡ some d
  pub app_row : db.apps.row app.id ≡ some app
  pub own : d.app ≡ app.id

abbrev pub DbIsConsistent : Db → Type 0
DbIsConsistent db = IsConsistent db.apps db.deployments

-- The deployment as it is saved when it becomes active.
abbrev activated_at : Deployment → ℕ → Option ℕ → Deployment
activated_at d now finalized = record d {
  status = active;
  finalized_at = finalized;
  updated_at = now;
}

abbrev pointed_to : App → Deployment → App
pointed_to app d = record app { current_deployment = some d.id }

module _ (now : ℕ) (d : Deployment) (app : App) (db : Db) (finalized : Option ℕ)
    (c : DbIsConsistent db) (l : IsLoaded db d app) where
  abbrev switched : Table Deployment
  switched = switch_deployments now app (activated_at d now finalized) db.deployments

  -- The app is saved with its new current deployment alone.
  pub plain-IsConsistent : IsConsistent (set_current now (pointed_to app d) db.apps) switched
  unfolding set_current
  plain-IsConsistent =
      switch-IsConsistent now app (activated_at d now finalized) db.apps
        (set_current now (pointed_to app d) db.apps) db.deployments c l.app_row (d, l.row, l.own)
        refl (λ j n. ground (arith, n))
        (save_current now (pointed_to app d) app, ground (arith, l.app_row), refl, refl)

  -- The app is saved with a later end of its preview too.
  renewed-IsConsistent :
      (a : App)
      → a.id ≡ app.id
      → a.current_deployment ≡ some d.id
      → IsConsistent (set_current now a (modify app.id (save_expiry a) db.apps)) switched
  unfolding set_current
  renewed-IsConsistent a same_id current =
      switch-IsConsistent now app (activated_at d now finalized) db.apps
        (set_current now a (modify app.id (save_expiry a) db.apps)) db.deployments c l.app_row
        (d, l.row, l.own) refl (λ j n. ground (arith, n, same_id))
        (save_current now a (save_expiry a app), ground (arith, l.app_row, same_id), refl, current)

pub same_row :
    (d e : Deployment) {o : Option Deployment}
    → o ≡ some e
    → o ≡ some d
    → is_active d.status ≡ false
    → is_active e.status ≡ false
same_row d e there row idle = cc (there, row, idle)

module _ (site : Site) where
  pub publish-IsConsistent :
      (now : ℕ) (d : Deployment) (app : App) (actor : Option Actor) (w : World site)
      → DbIsConsistent w.db
      → IsLoaded w.db d app
      → DbIsConsistent (publish site now d app actor w).0.db
  unfolding publish
  publish-IsConsistent now d app actor w c l = elim (Bool-cases (is_some app.created_by_id)) [
    | inl creator ↦ rw creator (
        renewed-IsConsistent now d app w.db (some now) c l
          (record (pointed_to app d) {
            expires_at = some (preview_expires_at site.settings now);
            updated_at = now;
          })
          refl refl)
    | inr nobody ↦ rw nobody (plain-IsConsistent now d app w.db (some now) c l)
  ]

  activated-IsConsistent :
      (now : ℕ) (d : Deployment) (app : App) (actor : Option Actor) (w : World site)
      (o : site.storage.Files × Result ArtifactError ℕ)
      → DbIsConsistent w.db
      → IsLoaded w.db d app
      → DbIsConsistent (activated site now d app actor w o).0.db
  activated-IsConsistent now d app actor w (files, ok n) c l =
      publish-IsConsistent now d app actor (record w { files = files }) c l
  activated-IsConsistent now d app actor w (files, err artifact_not_found) c l = c
  activated-IsConsistent now d app actor w (files, err (extract_failed e)) c l = c

  pub activate-IsConsistent :
      (now : ℕ) (d : Deployment) (app : App) (actor : Option Actor) (w : World site)
      → DbIsConsistent w.db
      → IsLoaded w.db d app
      → DbIsConsistent (activate_deployment site now d app actor w).0.db
  unfolding activate_deployment
  activate-IsConsistent now d app actor w c l = elim (Bool-cases (can_finalize d.status)) [
    | inl ready_now ↦ elim (Bool-cases (d.artifact_size == 0)) [
      | inl nothing ↦ rw (ready_now, nothing) c
      | inr something ↦ rw (ready_now, something) (activated-IsConsistent now d app actor w _ c l)
    ]
    | inr not_now ↦ rw not_now c
  ]

  -- A deployment can fail to activate only while it is not active.
  pub mark_failed-IsConsistent :
      (now : ℕ) (d : Deployment) (app : App) (actor : Option Actor) (w : World site)
      → DbIsConsistent w.db
      → w.db.deployments.row d.id ≡ some d
      → is_active d.status ≡ false
      → DbIsConsistent (mark_deployment_failed site now d app actor w).db
  unfolding mark_deployment_failed
  mark_failed-IsConsistent now d app actor w c row idle =
      modify-IsConsistent w.db.apps w.db.deployments d.id
        (save_status site (record d { status = failed; updated_at = now })) c (λ e. refl)
        (λ e. refl) (λ e there. ground (arith, same_row d e there row idle))
