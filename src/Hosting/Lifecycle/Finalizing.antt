-- ===== src/Hosting/Lifecycle/Finalizing.antt =====
-- Finalizing, rolling back and uploading of apps/hosting/services.py, on the tables.
use hosting_service.Base.{
  ℕ, ◌≡◌, refl, subst, inl, inr, true, false, not, Option, some, List, arith, Text, Bool-cases,
  ◌==◌, Result, ok, err, raise_if-eq-ok, ok-injective,
}
use hosting_service.Hosting.Models.{DeploymentStatus, uploading, App, Deployment, Actor}
use hosting_service.Hosting.Storage.{Bytes, ArtifactTooLarge}
use hosting_service.Hosting.Extract.{
  ExtractError, ArtifactError, artifact_not_found, extract_failed,
}
use hosting_service.Hosting.Deployments.{
  Site, World, upload_deployment_artifact, uploaded, accepts_upload, save_upload, over_limit,
}
use hosting_service.Hosting.Deployments.Activation.{
  ActivationError, hosting, extract, can_finalize, can_roll_back, or_now, activated,
  activate_deployment, finished, finalizing_actor, finalize_deployment, rollback_deployment,
}
use hosting_service.Hosting.Deployments.Consistent.{is_active, modify-IsConsistent}
use hosting_service.Hosting.Lifecycle.Activating.{
  IsLoaded, DbIsConsistent, same_row, plain-IsConsistent, activate-IsConsistent,
  mark_failed-IsConsistent,
}

module _ (site : Site) where
  -- Where the extraction fails, the rows are as they were, and the deployment is not active.
  Unpublished : Deployment → World site × Result ActivationError Deployment → Type 0
  Unpublished d o =
      (e : ExtractError)
      → o.1 ≡ err (extract e)
      → (o.0.db.deployments.row d.id ≡ some d) × (is_active d.status ≡ false)

  activated-Unpublished :
      (now : ℕ) (d : Deployment) (app : App) (actor : Option Actor) (w : World site)
      (o : site.storage.Files × Result ArtifactError ℕ)
      → w.db.deployments.row d.id ≡ some d
      → is_active d.status ≡ false
      → Unpublished d (activated site now d app actor w o)
  unfolding Unpublished
  activated-Unpublished now d app actor w (files, ok n) row idle e h = cc
  activated-Unpublished now d app actor w (files, err artifact_not_found) row idle e h = cc
  activated-Unpublished now d app actor w (files, err (extract_failed x)) row idle e h = (row, idle)

  not_active : (s : DeploymentStatus) → can_finalize s ≡ true → is_active s ≡ false
  not_active s h = ground arith

  activate-Unpublished :
      (now : ℕ) (d : Deployment) (app : App) (actor : Option Actor) (w : World site)
      → w.db.deployments.row d.id ≡ some d
      → Unpublished d (activate_deployment site now d app actor w)
  unfolding activate_deployment Unpublished
  activate-Unpublished now d app actor w row e h = elim (Bool-cases (can_finalize d.status)) [
    | inl ready_now ↦ elim (Bool-cases (d.artifact_size == 0)) [
      | inl nothing ↦ cc (rw (ready_now, nothing) at h)
      | inr something ↦
          rw (ready_now, something)
            (activated-Unpublished now d app actor w _ row (not_active d.status ready_now) e
              (rw (ready_now, something) at h))
    ]
    | inr not_now ↦ cc (rw not_now at h)
  ]

  finished-IsConsistent :
      (now : ℕ) (d : Deployment) (app : App) (actor : Option Actor) (token : Text)
      (o : World site × Result ActivationError Deployment)
      → DbIsConsistent o.0.db
      → Unpublished d o
      → DbIsConsistent (finished site now d app actor token o).0.db
  unfolding Unpublished
  finished-IsConsistent now d app actor token (w, ok d') c u = c
  finished-IsConsistent now d app actor token (w, err (hosting e)) c u = c
  finished-IsConsistent now d app actor token (w, err (extract e)) c u =
      let (row, idle) = u e refl in mark_failed-IsConsistent site now d app actor w c row idle

  pub finalize-IsConsistent :
      (now : ℕ) (d : Deployment) (app : App) (user : Option ℕ) (email token : Text) (w : World site)
      → DbIsConsistent w.db
      → IsLoaded w.db d app
      → DbIsConsistent (finalize_deployment site now d app user email token w).0.db
  unfolding finalize_deployment
  finalize-IsConsistent now d app user email token w c l =
      let actor = finalizing_actor site user email d in
      finished-IsConsistent now d app actor token (activate_deployment site now d app actor w)
        (activate-IsConsistent site now d app actor w c l)
        (activate-Unpublished now d app actor w l.row)

  pub rollback-IsConsistent :
      (now : ℕ) (d d' : Deployment) (app : App) (w w' : World site)
      → DbIsConsistent w.db
      → IsLoaded w.db d app
      → rollback_deployment site now d app w ≡ ok (w', d')
      → DbIsConsistent w'.db
  unfolding rollback_deployment
  rollback-IsConsistent now d d' app w w' c l h =
      let (_, h1) = raise_if-eq-ok (not (can_roll_back d.status)) _ _ h in
      let (_, h2) = raise_if-eq-ok (d.artifact_size == 0) _ _ h1 in
      subst (λ (q : World site × Deployment). DbIsConsistent q.0.db) (ok-injective _ _ h2)
        (plain-IsConsistent now d app w.db (or_now now d.finalized_at) c l)

  not_active_upload : (s : DeploymentStatus) → accepts_upload s ≡ true → is_active s ≡ false
  not_active_upload s h = ground arith

  uploaded-IsConsistent :
      (now : ℕ) (d d' : Deployment) (w w' : World site)
      (o : Result ArtifactTooLarge (ℕ × site.storage.Files))
      → DbIsConsistent w.db
      → w.db.deployments.row d.id ≡ some d
      → is_active d.status ≡ false
      → uploaded site now d w o ≡ ok (w', d')
      → DbIsConsistent w'.db
  uploaded-IsConsistent now d d' w w' (err e) c row idle h = cc
  uploaded-IsConsistent now d d' w w' (ok (size, files)) c row idle h =
      subst (λ (q : World site × Deployment). DbIsConsistent q.0.db) (ok-injective _ _ h)
        (modify-IsConsistent w.db.apps w.db.deployments d.id
          (save_upload (record d { status = uploading; artifact_size = size; updated_at = now })) c
          (λ e. refl) (λ e. refl) (λ e there. ground (arith, same_row d e there row idle)))

  pub upload-IsConsistent :
      (now : ℕ) (d d' : Deployment) (chunks : List Bytes) (content_length : Option ℕ)
      (w w' : World site)
      → DbIsConsistent w.db
      → w.db.deployments.row d.id ≡ some d
      → upload_deployment_artifact site now d chunks content_length w ≡ ok (w', d')
      → DbIsConsistent w'.db
  unfolding upload_deployment_artifact
  upload-IsConsistent now d d' chunks content_length w w' c row h =
      let (open_for, h1) = raise_if-eq-ok (not (accepts_upload d.status)) _ _ h in
      let (_, h2) =
        raise_if-eq-ok (over_limit site.settings.max_upload_bytes content_length) _ _ h1 in
      uploaded-IsConsistent now d d' w w' _ c row (not_active_upload d.status (ground arith)) h2
