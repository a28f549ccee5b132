-- ===== src/Hosting/Lifecycle/Deleting.antt =====
-- `delete_app` of apps/hosting/services.py on the tables.
use hosting_service.Base.{
  ℕ, ◌≡◌, refl, sym, ap, ◌∙◌, Bool, true, false, Option, none, some, arith, Text, ◌==◌,
}
use hosting_service.Hosting.Models.{App, Deployment, Table, unless, drop_if, remove, remove_where}
use hosting_service.Hosting.Deployments.{Site, World, of_app}
use hosting_service.Hosting.Deployments.Consistent.{IsConsistent, points_to}
use hosting_service.Hosting.Lifecycle.Activating.{DbIsConsistent}
use hosting_service.Hosting.Deletion.{delete_app}

unless-some :
    {A : Type 0} (b : Bool) (o : Option A) (a : A)
    → unless b o ≡ some a
    → (b ≡ false) × (o ≡ some a)
unless-some true o a h = cc
unless-some false o a h = (refl, h)

same_row : {A : Type 0} {a b : A} → some a ≡ some b → a ≡ b
same_row h = cc

kept_row :
    {A : Type 0} (p : A → Bool) (b : Bool) (x a : A)
    → p x ≡ b
    → unless b (some x) ≡ some a
    → (some x ≡ some a) × (p a ≡ false)
kept_row p true x a e h = cc
kept_row p false x a e h = (h, ap p (sym (same_row h)) ∙ e)

drop_if-some :
    {A : Type 0} (p : A → Bool) (o : Option A) (a : A)
    → drop_if p o ≡ some a
    → (o ≡ some a) × (p a ≡ false)
drop_if-some p none a h = cc
drop_if-some p (some x) a h = kept_row p (p x) x a refl h

-- Which app is current does not change for the deployments of the other apps.
module _ (apps : Table App) (deployments : Table Deployment) (j : ℕ)
    (c : IsConsistent apps deployments) where
  remove-IsConsistent : IsConsistent (remove j apps) (remove_where (of_app j) deployments)
  remove-IsConsistent = record {
    app_keys = λ k a h. c.app_keys k a (unless-some (j == k) (apps.row k) a h).1;
    deployment_keys =
        λ i d h. c.deployment_keys i d (drop_if-some (of_app j) (deployments.row i) d h).0;
    active_iff_current = λ i d h.
        (let (there, other) = drop_if-some (of_app j) (deployments.row i) d h in
          let away : j == d.app ≡ false = ground (arith, other) in
          c.active_iff_current i d there
          ∙ ap (λ b. points_to i (unless b (apps.row d.app))) (sym away));
    current_exists = λ k a i h e.
        (let (away, row) = unless-some (j == k) (apps.row k) a h in
          let (d, there, own) = c.current_exists k a i row e in
          let other : of_app j d ≡ false = ground (arith, away, own) in
          (d, ap (drop_if (of_app j)) there ∙ ap (λ b. unless b (some d)) other, own));
  }

pub delete-IsConsistent :
    (site : Site) (origin : App → Option Text) (app : App) (user : Option ℕ) (email : Text)
    (w : World site)
    → DbIsConsistent w.db
    → DbIsConsistent (delete_app site origin app user email w).0.db
unfolding delete_app
delete-IsConsistent site origin app user email w c =
    remove-IsConsistent w.db.apps w.db.deployments app.id c
