-- ===== src/Hosting/Apps/Ownership.antt =====
-- `resolve_preview_app` of apps/hosting/services.py.
use hosting_service.Base.{
  ℕ, ◌≡◌, refl, ap, ◌⊎◌, inl, inr, Bool, true, false, not, ◌&&◌, Option, none, some, List, [], ◌∷◌,
  arith, Text, All, Bool-cases, ◌==◌, Unicode, Result, ok, bind-eq-ok, raise_if-eq-ok, ◌>>◌,
  raise_if,
}
use hosting_service.Hosting.Models.{
  App, selected, add_selected, filter_rows, Db, HostingError, preview_not_found, preview_forbidden,
  deploy_token_preview_only,
}
use hosting_service.Hosting.Expiry.{is_preview_app}
use hosting_service.Hosting.Apps.{
  head?, find_app, has_slug, or_error, valid_slug, of_another, resolve_preview_app,
}

-- What is selected passes the test, and is a row.
module _ {A : Type 0} (p : A → Bool) (row : ℕ → Option A) where
  abbrev pub IsRow : A → Type 0
  IsRow a = (p a ≡ true) × ((i : ℕ) × (row i ≡ some a))

  add-IsRow :
      (i : ℕ) (o : Option A) (rest : List A)
      → row i ≡ o
      → All IsRow rest
      → All IsRow (add_selected p o rest)
  add-IsRow i none rest e h = h
  add-IsRow i (some a) rest e h = elim (Bool-cases (p a)) [
    | inl yes_p ↦ rw yes_p ((yes_p, (i, e)), h)
    | inr no_p ↦ rw no_p h
  ]

  pub selected-IsRow : (is : List ℕ) → All IsRow (selected p row is)
  selected-IsRow [] = tt
  selected-IsRow (i ∷ is) = add-IsRow i (row i) (selected p row is) refl (selected-IsRow is)

  head-IsRow : (rows : List A) (a : A) → All IsRow rows → head? rows ≡ some a → IsRow a
  head-IsRow [] a h e = cc
  head-IsRow (b ∷ rows) a (k, h) e = let same : b ≡ a = ground arith in rw (← same) k

-- The app that a preview deploy of a company's user may go to.
pub record IsAllowed (company user : ℕ) (any_user : Bool) (db : Db) (app : App) : Type 0 where
  pub stored : (i : ℕ) × (db.apps.row i ≡ some app)
  pub own_company : app.company_id ≡ company
  pub own_or_shared :
      (any_user ≡ true) ⊎ (app.created_by_id ≡ none) ⊎ (app.created_by_id ≡ some user)
  pub preview_only : (any_user ≡ false) ⊎ (is_preview_app app ≡ true)

same_ok : (a b : App) → ◌≡◌ {A = Result HostingError App} (ok a) (ok b) → a ≡ b
same_ok a b h = cc

guarded :
    (company user : ℕ) (any_user : Bool) (found app : App)
    → (do
      raise_if (not (found.company_id == company)) preview_forbidden
      raise_if (any_user && not (is_preview_app found)) deploy_token_preview_only
      raise_if (not any_user && of_another found.created_by_id user) preview_forbidden
      ok found)
      ≡ ok app
    → (found ≡ app)
      × (found.company_id ≡ company)
      × (any_user && not (is_preview_app found) ≡ false)
      × (not any_user && of_another found.created_by_id user ≡ false)
guarded company user any_user found app h =
    let (own, h1) = raise_if-eq-ok (not (found.company_id == company)) _ _ h in
    let (preview, h2) = raise_if-eq-ok (any_user && not (is_preview_app found)) _ _ h1 in
    let (mine, h3) = raise_if-eq-ok (not any_user && of_another found.created_by_id user) _ _ h2 in
    (same_ok found app h3, ground arith, preview, mine)

or_error-eq-ok :
    (e : HostingError) (o : Option App) (app : App) → or_error e o ≡ ok app → o ≡ some app
or_error-eq-ok e none app h = cc
or_error-eq-ok e (some a) app h = ground arith

resolved :
    (u : Unicode) (slug : Text) (company user : ℕ) (any_user : Bool) (db : Db) (app : App)
    → resolve_preview_app u slug company user any_user db ≡ ok app
    → (normalized : Text) × (valid_slug u slug ≡ ok normalized)
      × (find_app (has_slug normalized) db ≡ some app)
      × (app.company_id ≡ company)
      × (any_user && not (is_preview_app app) ≡ false)
      × (not any_user && of_another app.created_by_id user ≡ false)
unfolding resolve_preview_app
resolved u slug company user any_user db app h =
    let (normalized, valid, h1) = bind-eq-ok (valid_slug u slug) _ h in
    let (found, there, h2) =
      bind-eq-ok (or_error preview_not_found (find_app (has_slug normalized) db)) _ h1 in
    let (same, company_ok, preview_ok, user_ok) = guarded company user any_user found app h2 in
    (
      normalized,
      valid,
      or_error-eq-ok preview_not_found (find_app (has_slug normalized) db) app (rw same at there),
      rw same at company_ok,
      rw same at preview_ok,
      rw same at user_ok,
    )

find_app-IsRow :
    (p : App → Bool) (db : Db) (app : App)
    → find_app p db ≡ some app
    → (p app ≡ true) × ((i : ℕ) × (db.apps.row i ≡ some app))
unfolding find_app
find_app-IsRow p db app e =
    head-IsRow p db.apps.row (filter_rows p db.apps) app (selected-IsRow p db.apps.row db.apps.keys)
      e

not_another : (o : Option ℕ) (user : ℕ) → of_another o user ≡ false → (o ≡ none) ⊎ (o ≡ some user)
not_another none user h = inl refl
not_another (some c) user h = inr (ap some (ground arith))

own_or_shared_cases :
    (any_user : Bool) (app : App) (user : ℕ)
    → not any_user && of_another app.created_by_id user ≡ false
    → (any_user ≡ true) ⊎ (app.created_by_id ≡ none) ⊎ (app.created_by_id ≡ some user)
own_or_shared_cases true app user h = inl refl
own_or_shared_cases false app user h = inr (not_another app.created_by_id user h)

-- `resolve_preview_app` returns only a stored app of the caller's company; without the right to any
-- user's previews, one that nobody or the caller created; with it, a preview.
pub resolve_preview_app-IsAllowed :
    (u : Unicode) (slug : Text) (company user : ℕ) (any_user : Bool) (db : Db) (app : App)
    → resolve_preview_app u slug company user any_user db ≡ ok app
    → IsAllowed company user any_user db app
resolve_preview_app-IsAllowed u slug company user any_user db app h =
    let (normalized, _, found, own, preview, mine) =
      resolved u slug company user any_user db app h in
    record {
      stored = (find_app-IsRow (has_slug normalized) db app found).1;
      own_company = own;
      own_or_shared = own_or_shared_cases any_user app user mine;
      preview_only = ground arith;
    }
