-- ===== src/Hosting/Deployments/Consistent.antt =====
-- Consistency of the tables of apps and deployments of apps/hosting/models.py.
use hosting_service.Base.{
  ℕ, ◌≡◌, ◌≢◌, refl, sym, ap, ◌∙◌, inl, inr, Bool, true, false, Option, none, some, arith,
  Bool-cases, Option-cases, ==_iff, if◌then◌else◌, ◌==◌,
}
use hosting_service.Hosting.Models.{
  DeploymentStatus, active, superseded, App, Deployment, Table, insert, modify, option_eq,
}
use hosting_service.Hosting.Deployments.Activation.{
  is_other_active, retire, save_activation, switch_deployments,
}

abbrev pub is_active : DeploymentStatus → Bool
is_active active = true
is_active _ = false

abbrev pub points_to : ℕ → Option App → Bool
points_to i none = false
points_to i (some app) = option_eq app.current_deployment (some i)

-- The app's current deployment is number i.
abbrev pub is_current : Table App → ℕ → ℕ → Bool
is_current apps i app = points_to i (apps.row app)

-- Rows stand under their keys; a deployment is active exactly if it is the current one of its app;
-- and a current deployment is one of the app's own.
pub record IsConsistent (apps : Table App) (deployments : Table Deployment) : Type 0 where
  pub app_keys : (j : ℕ) (a : App) → apps.row j ≡ some a → a.id ≡ j
  pub deployment_keys : (i : ℕ) (d : Deployment) → deployments.row i ≡ some d → d.id ≡ i
  pub active_iff_current :
      (i : ℕ) (d : Deployment)
      → deployments.row i ≡ some d
      → is_active d.status ≡ is_current apps i d.app
  pub current_exists :
      (j : ℕ) (a : App) (i : ℕ)
      → apps.row j ≡ some a
      → a.current_deployment ≡ some i
      → (d : Deployment) × (deployments.row i ≡ some d) × (d.app ≡ j)

-- Where a row of the table comes from after a switch.
switched :
    (now : ℕ) (app : App) (d : Deployment) (t : Table Deployment) (i : ℕ) (e : Deployment)
    → (switch_deployments now app d t).row i ≡ some e
    → (old : Deployment) × (t.row i ≡ some old)
      × (old.app ≡ e.app)
      × (old.id ≡ e.id)
      × (e.status ≡ (
          if d.id == i
          then d.status
          else if is_other_active app d old
          then superseded
          else old.status))
unfolding switch_deployments
switched now app d t i e h = elim (Option-cases (t.row i)) [
  | inl gone ↦ ground (arith, gone)
  | inr (old, there) ↦
      (old, there, ground (arith, there), ground (arith, there), ground (arith, there))
]

-- The row that a switch makes of an old one.
abbrev switched_row : ℕ → App → Deployment → ℕ → Deployment → Deployment
switched_row now app d i old =
    let kept = if is_other_active app d old then retire now old else old in
    if d.id == i then save_activation d kept else kept

switch-row :
    (now : ℕ) (app : App) (d : Deployment) (t : Table Deployment) (i : ℕ) (old : Deployment)
    → t.row i ≡ some old
    → ((switch_deployments now app d t).row i ≡ some (switched_row now app d i old))
      × ((switched_row now app d i old).app ≡ old.app)
unfolding switch_deployments
switch-row now app d t i old there = (ground (arith, there), ground arith)

-- The tables after a switch: the app's current deployment is d, which is active, and the row of the
-- app may have changed otherwise.
module _ (now : ℕ) (app : App) (d : Deployment) (apps apps' : Table App)
    (deployments : Table Deployment) (c : IsConsistent apps deployments)
    (found_app : apps.row app.id ≡ some app)
    (found : (row : Deployment) × (deployments.row d.id ≡ some row) × (row.app ≡ app.id))
    (is_now_active : d.status ≡ active) (kept : (j : ℕ) → j ≢ app.id → apps'.row j ≡ apps.row j)
    (changed : (a : App) × (apps'.row app.id ≡ some a)
      × (a.id ≡ app.id)
      × (a.current_deployment ≡ some d.id)) where
  abbrev after : Table Deployment
  after = switch_deployments now app d deployments

  after_app_keys : (j : ℕ) (a : App) → apps'.row j ≡ some a → a.id ≡ j
  after_app_keys j a e = ground (arith, kept j, c.app_keys j a)

  after_deployment_keys : (i : ℕ) (e : Deployment) → after.row i ≡ some e → e.id ≡ i
  after_deployment_keys i e h =
      let (old, there, _, same_id, _) = switched now app d deployments i e h in
      ground (arith, c.deployment_keys i old there)

  after_active :
      (i : ℕ) (e : Deployment)
      → after.row i ≡ some e
      → is_active e.status ≡ is_current apps' i e.app
  after_active i e h =
      let (old, there, same_app, _, status) = switched now app d deployments i e h in
      ground (arith, c.deployment_keys i old there, c.active_iff_current i old there, kept e.app)

  after_current :
      (j : ℕ) (a : App) (i : ℕ)
      → apps'.row j ≡ some a
      → a.current_deployment ≡ some i
      → (e : Deployment) × (after.row i ≡ some e) × (e.app ≡ j)
  after_current j a i e k = elim (Bool-cases (j == app.id)) [
    | inl own ↦
        let (row, there, its_app) = found in
        let (made, same_app) = switch-row now app d deployments d.id row there in
        let i_is_d : i ≡ d.id = ground (arith, ap apps'.row ((==_iff j app.id).0 own)) in
        (switched_row now app d d.id row, rw i_is_d made, ground (arith, (==_iff j app.id).0 own))
    | inr other ↦
        let (row, there, its_app) = c.current_exists j a i (ground (arith, kept j)) k in
        let (made, same_app) = switch-row now app d deployments i row there in
        (switched_row now app d i row, made, same_app ∙ its_app)
  ]

  pub switch-IsConsistent : IsConsistent apps' after
  switch-IsConsistent = record {
    app_keys = after_app_keys;
    deployment_keys = after_deployment_keys;
    active_iff_current = after_active;
    current_exists = after_current;
  }

-- A change of a row that leaves its key, its app and its being active alone.
module _ (apps : Table App) (deployments : Table Deployment) (i : ℕ) (f : Deployment → Deployment)
    (c : IsConsistent apps deployments) (same_id : (d : Deployment) → (f d).id ≡ d.id)
    (same_app : (d : Deployment) → (f d).app ≡ d.app)
    (same_active : (d : Deployment)
      → deployments.row i ≡ some d
      → is_active (f d).status ≡ is_active d.status) where
  modified :
      (k : ℕ) (e : Deployment)
      → (modify i f deployments).row k ≡ some e
      → (old : Deployment) × (deployments.row k ≡ some old)
        × (old.app ≡ e.app)
        × (old.id ≡ e.id)
        × (is_active e.status ≡ is_active old.status)
  modified k e h = elim (Option-cases (deployments.row k)) [
    | inl gone ↦ ground (arith, gone)
    | inr (old, there) ↦ (
      old,
      there,
      ground (arith, there, same_app old),
      ground (arith, there, same_id old),
      ground (arith, there, same_active old),
    )
  ]

  pub modify-IsConsistent : IsConsistent apps (modify i f deployments)
  modify-IsConsistent = record {
    app_keys = c.app_keys;
    deployment_keys = λ k e h.
        let (old, there, _, ids, _) = modified k e h in sym ids ∙ c.deployment_keys k old there;
    active_iff_current = λ k e h.
        let (old, there, apps_eq, _, actives) = modified k e h in
        rw (← apps_eq) (actives ∙ c.active_iff_current k old there);
    current_exists = λ j a k e h.
        let (old, there, its_app) = c.current_exists j a k e h in
        (if i == k then f old else old, ground (arith, there), ground (arith, same_app old));
  }

option_eq-some : (o : Option ℕ) (i : ℕ) → option_eq o (some i) ≡ true → o ≡ some i
option_eq-some none i h = cc
option_eq-some (some a) i h = ap some ((==_iff a i).0 h)

not_current :
    (apps : Table App) (deployments : Table Deployment) (i j : ℕ)
    → IsConsistent apps deployments
    → deployments.row i ≡ none
    → is_current apps i j ≡ false
not_current apps deployments i j c fresh = elim (Option-cases (apps.row j)) [
  | inl gone ↦ rw gone
  | inr (a, there) ↦ elim (Bool-cases (option_eq a.current_deployment (some i))) [
    | inl same ↦
        let (d, found, _) =
          c.current_exists j a i there (option_eq-some a.current_deployment i same) in
        cc (fresh, found)
    | inr differs ↦ rw there differs
  ]
]

-- A deployment with a fresh key that is not active.
pub insert-IsConsistent :
    (apps : Table App) (deployments : Table Deployment) (d : Deployment)
    → IsConsistent apps deployments
    → deployments.row d.id ≡ none
    → is_active d.status ≡ false
    → IsConsistent apps (insert d.id d deployments)
insert-IsConsistent apps deployments d c fresh idle = record {
  app_keys = c.app_keys;
  deployment_keys = λ k e h. ground (arith, c.deployment_keys k e);
  active_iff_current = λ k e h.
      ground (arith, c.active_iff_current k e, not_current apps deployments d.id e.app c fresh);
  current_exists = λ j a k e h.
      let (old, there, its_app) = c.current_exists j a k e h in
      (old, ground (arith, there, fresh), its_app);
}

current_app :
    (apps : Table App) (i j : ℕ)
    → is_current apps i j ≡ true
    → (a : App) × (apps.row j ≡ some a) × (a.current_deployment ≡ some i)
current_app apps i j h = elim (Option-cases (apps.row j)) [
  | inl gone ↦ cc (rw gone at h)
  | inr (a, there) ↦ (a, there, option_eq-some a.current_deployment i (rw there at h))
]

option_eq_refl : (i : ℕ) → option_eq (some i) (some i) ≡ true
option_eq_refl i = (==_iff i i).1 refl

-- A change of the apps that moves no current deployment.
pub apps-IsConsistent :
    (apps apps' : Table App) (deployments : Table Deployment)
    → IsConsistent apps deployments
    → ((i j : ℕ) → is_current apps' i j ≡ is_current apps i j)
    → ((j : ℕ) (a : App) → apps'.row j ≡ some a → a.id ≡ j)
    → IsConsistent apps' deployments
apps-IsConsistent apps apps' deployments c same keys = record {
  app_keys = keys;
  deployment_keys = c.deployment_keys;
  active_iff_current = λ i d h. c.active_iff_current i d h ∙ sym (same i d.app);
  current_exists = λ j a i h k.
      let before =
        sym (same i j)
        ∙ ap (λ o. points_to i o) h
        ∙ ap (λ o. option_eq o (some i)) k
        ∙ option_eq_refl i in
      let (b, there, current) = current_app apps i j before in c.current_exists j b i there current;
}
