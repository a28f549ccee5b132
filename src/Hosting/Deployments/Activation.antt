-- ===== src/Hosting/Deployments/Activation.antt =====
-- Finalizing and rolling back: how a deployment of apps/hosting/services.py becomes the one that is
-- served.
use hosting_service.Base.{
  ℕ, Bool, true, false, not, ◌&&◌, Option, none, some, [], ◌∷◌, ◌++◌, Text, strip, is_empty,
  if◌then◌else◌, ◌==◌, Result, ok, err, ◌>>◌, raise_if,
}
use hosting_service.Hosting.Models.{
  DeploymentStatus, draft, uploading, ready, active, superseded, failed, App, Deployment, Table,
  modify, modify_where, status_eq, Actor, deployment_succeeded, deployment_failed, HostingError,
  invalid_deployment_status, artifact_extract_failed, artifact_missing,
}
use hosting_service.Hosting.Extract.{
  ExtractError, ArtifactError, artifact_not_found, extract_failed, extract_deployment_artifact,
}
use hosting_service.Hosting.Expiry.{renew_preview_expiry}
use hosting_service.Hosting.Deployments.{
  Site, World, invalidate_serve_cache, action_actor, event, emit,
}

pub data ActivationError : Type 0 where
  hosting : HostingError → ActivationError
  extract : ExtractError → ActivationError

abbrev pub can_finalize : DeploymentStatus → Bool
can_finalize uploading = true
can_finalize ready = true
can_finalize draft = true
can_finalize _ = false

abbrev pub can_roll_back : DeploymentStatus → Bool
can_roll_back ready = true
can_roll_back active = true
can_roll_back superseded = true
can_roll_back _ = false

-- `filter(app=app, status=ACTIVE).exclude(id=deployment.id)`
abbrev pub is_other_active : App → Deployment → Deployment → Bool
is_other_active app d e = e.app == app.id && status_eq e.status active && not (e.id == d.id)

abbrev pub retire : ℕ → Deployment → Deployment
retire now e = record e { status = superseded; updated_at = now }

-- `save(update_fields=['status', 'finalized_at', 'updated_at'])`
abbrev pub save_activation : Deployment → Deployment → Deployment
save_activation d row = record row {
  status = d.status;
  finalized_at = d.finalized_at;
  updated_at = d.updated_at;
}

-- The others of the app are superseded, and the deployment is saved as active.
unfoldable pub switch_deployments : ℕ → App → Deployment → Table Deployment → Table Deployment
switch_deployments now app d t =
    modify d.id (save_activation d) (modify_where (is_other_active app d) (retire now) t)

-- `save(update_fields=['current_deployment', 'updated_at'])`
abbrev pub save_current : ℕ → App → App → App
save_current now app row = record row {
  current_deployment = app.current_deployment;
  updated_at = now;
}

unfoldable pub set_current : ℕ → App → Table App → Table App
set_current now app t = modify app.id (save_current now app) t

abbrev pub or_now : ℕ → Option ℕ → Option ℕ
or_now now none = some now
or_now now (some t) = some t

module _ (site : Site) where
  -- The writes of `_activate_deployment`, after the artifact was extracted.
  unfoldable pub publish :
      ℕ → Deployment → App → Option Actor → World site → World site × Deployment
  unfolding switch_deployments set_current renew_preview_expiry invalidate_serve_cache
  publish now d app actor w =
      let d' = record d { status = active; finalized_at = some now; updated_at = now } in
      let switched = record w.db { deployments = switch_deployments now app d' w.db.deployments } in
      let app' = record app { current_deployment = some d.id } in
      let (renewed_db, app'') = renew_preview_expiry site.settings now app' switched in
      let saved = record renewed_db { apps = set_current now app'' renewed_db.apps } in
      (
        record w {
          db = emit (event deployment_succeeded app'' (some d') actor) saved;
          cache = invalidate_serve_cache app.slug w.cache;
        },
        d',
      )

  abbrev pub activated :
      ℕ
      → Deployment
      → App
      → Option Actor
      → World site
      → site.storage.Files × Result ArtifactError ℕ
      → World site × Result ActivationError Deployment
  activated now d app actor w (files, ok n) =
      let (w', d') = publish now d app actor (record w { files = files }) in (w', ok d')
  activated now d app actor w (files, err artifact_not_found) =
      (record w { files = files }, err (hosting artifact_missing))
  activated now d app actor w (files, err (extract_failed e)) =
      (record w { files = files }, err (extract e))

  -- `_activate_deployment`, with `deployment.app`. Where it raises, the database is as it was; the
  -- files are not.
  unfoldable pub activate_deployment :
      ℕ
      → Deployment
      → App
      → Option Actor
      → World site
      → World site × Result ActivationError Deployment
  activate_deployment now d app actor w =
      if not (can_finalize d.status)
      then (w, err (hosting invalid_deployment_status))
      else if d.artifact_size == 0
      then (w, err (hosting artifact_missing))
      else activated now d app actor w (
          extract_deployment_artifact site.storage site.open_tar site.store site.depth site.limits
            w.files d.storage_prefix)

  abbrev pub save_status : Deployment → Deployment → Deployment
  save_status d row = record row { status = d.status; updated_at = d.updated_at }

  unfoldable pub mark_deployment_failed :
      ℕ → Deployment → App → Option Actor → World site → World site
  mark_deployment_failed now d app actor w =
      let d' = record d { status = failed; updated_at = now } in
      record w {
        db =
            emit (event deployment_failed app (some d') actor)
              (record w.db { deployments = modify d.id (save_status d') w.db.deployments });
      }

  abbrev pub upsert_redirect : App → Option Text → World site → World site
  upsert_redirect app token w = record w {
    db = record w.db {
      syncs = w.db.syncs ++ record { slug = app.slug; access_token = token } ∷ [];
    };
  }

  -- `(access_token or '').strip() or None`
  abbrev pub stripped_token : Text → Option Text
  stripped_token token = if is_empty (strip token) then none else some (strip token)

  abbrev pub finished :
      ℕ
      → Deployment
      → App
      → Option Actor
      → Text
      → World site × Result ActivationError Deployment
      → World site × Result HostingError Deployment
  finished now d app actor token (w, ok d') = (upsert_redirect app (stripped_token token) w, ok d')
  finished now d app actor token (w, err (hosting e)) = (w, err e)
  finished now d app actor token (w, err (extract e)) =
      (mark_deployment_failed now d app actor w, err artifact_extract_failed)

  abbrev pub finalizing_actor : Option ℕ → Text → Deployment → Option Actor
  finalizing_actor none email d = action_actor d.deployed_by_id []
  finalizing_actor (some user) email d = action_actor (some user) email

  unfoldable pub finalize_deployment :
      ℕ
      → Deployment
      → App
      → Option ℕ
      → Text
      → Text
      → World site
      → World site × Result HostingError Deployment
  unfolding action_actor
  finalize_deployment now d app user actor_email access_token w =
      let actor = finalizing_actor user actor_email d in
      finished now d app actor access_token (activate_deployment now d app actor w)

  unfoldable pub rollback_deployment :
      ℕ → Deployment → App → World site → Result HostingError (World site × Deployment)
  unfolding switch_deployments set_current invalidate_serve_cache
  rollback_deployment now d app w = do
    raise_if (not (can_roll_back d.status)) invalid_deployment_status
    raise_if (d.artifact_size == 0) artifact_missing
    let d' = record d {
      status = active;
      finalized_at = or_now now d.finalized_at;
      updated_at = now;
    }
    let app' = record app { current_deployment = some d.id }
    ok (
      record w {
        db = record w.db {
          deployments = switch_deployments now app d' w.db.deployments;
          apps = set_current now app' w.db.apps;
        };
        cache = invalidate_serve_cache app.slug w.cache;
      },
      d',
    )
