-- ===== src/Hosting/Expiry.antt =====
-- The lifetime of previews, from apps/hosting/services.py.
use hosting_service.Base.{
  ◌⊎◌, inl, inr, refl, ap, ◌∙◌, ◌≤◌, ==_iff, ℕ, ◌+◌, ◌*◌, ◌≡◌, ◌↔◌, Bool, true, false, not, ◌&&◌,
  ◌||◌, Option, none, some, arith, if◌then◌else◌, ◌==◌, leb, Result, ok, err, ◌>>◌, raise_if,
}
use hosting_service.Hosting.Models.{
  App, modify, Db, HostingSettings, HostingError, not_preview, preview_expired,
}

abbrev pub day : ℕ
day = 86_400

-- `max(int(HOSTING_PREVIEW_TTL_DAYS or 7), 1)`, for a setting that is not negative
unfoldable pub ttl_days : HostingSettings → ℕ
ttl_days cfg = if cfg.preview_ttl_days == 0 then 7 else cfg.preview_ttl_days

unfoldable pub preview_expires_at : HostingSettings → ℕ → ℕ
unfolding ttl_days
preview_expires_at cfg now = now + day * ttl_days cfg

abbrev pub expired_at : ℕ → Option ℕ → Bool
expired_at now none = false
expired_at now (some t) = leb t now

unfoldable pub is_preview_expired : ℕ → App → Bool
is_preview_expired now app = expired_at now app.expires_at

abbrev pub is_some : Option ℕ → Bool
is_some none = false
is_some (some a) = true

unfoldable pub is_preview_app : App → Bool
is_preview_app app = is_some app.created_by_id || is_some app.expires_at

-- `renew_preview_expiry`: the object, and its row (`save` with these two fields).
unfoldable pub renewed : HostingSettings → ℕ → App → App
renewed cfg now app =
    if is_some app.created_by_id
    then record app { expires_at = some (preview_expires_at cfg now); updated_at = now }
    else app

abbrev pub save_expiry : App → App → App
save_expiry app row = record row { expires_at = app.expires_at; updated_at = app.updated_at }

unfoldable pub renew_preview_expiry : HostingSettings → ℕ → App → Db → Db × App
unfolding renewed
renew_preview_expiry cfg now app db =
    if is_some app.created_by_id
    then (
      record db { apps = modify app.id (save_expiry (renewed cfg now app)) db.apps },
      renewed cfg now app,
    )
    else (db, app)

unfoldable pub renew_app_expiry : HostingSettings → ℕ → App → Db → Result HostingError (Db × App)
unfolding is_preview_expired
renew_app_expiry cfg now app db = do
  raise_if (not (is_some app.created_by_id) && not (is_some app.expires_at)) not_preview
  raise_if (is_preview_expired now app) preview_expired
  let app' = record app { expires_at = some (preview_expires_at cfg now); updated_at = now }
  ok (record db { apps = modify app.id (save_expiry app') db.apps }, app')

-- The end of the lifetime has come.
abbrev pub HasEnded : ℕ → Option ℕ → Type 0
HasEnded now end = (t : ℕ) × (end ≡ some t) × (t ≤ now)

ended_some : (now : ℕ) (end : Option ℕ) → expired_at now end ≡ true → HasEnded now end
ended_some now none h = cc
ended_some now (some t) h = (t, refl, ground arith)

some_ended : (now : ℕ) (end : Option ℕ) → HasEnded now end → expired_at now end ≡ true
some_ended now none (t, e, h) = cc
some_ended now (some s) (t, e, h) = let same : s ≡ t = cc in ground arith

refused :
    (cfg : HostingSettings) (now : ℕ) (app : App) (db : Db)
    → (renew_app_expiry cfg now app db ≡ err preview_expired)
      ↔ (expired_at now app.expires_at ≡ true)
unfolding renew_app_expiry is_preview_expired
refused cfg now app db = (λ h. ground arith, λ h. ground arith)

-- `renew_app_expiry` refuses an app as expired exactly when the app has an end and this end is not
-- later than now.
pub renew_app_expiry-expired_iff :
    (cfg : HostingSettings) (now : ℕ) (app : App) (db : Db)
    → (renew_app_expiry cfg now app db ≡ err preview_expired) ↔ HasEnded now app.expires_at
renew_app_expiry-expired_iff cfg now app db = (
  λ h. ended_some now app.expires_at ((refused cfg now app db).0 h),
  λ h. (refused cfg now app db).1 (some_ended now app.expires_at h),
)

renewed_app :
    (cfg : HostingSettings) (now : ℕ) (app app' : App) (db db' : Db)
    → renew_app_expiry cfg now app db ≡ ok (db', app')
    → (app' ≡ record app { expires_at = some (preview_expires_at cfg now); updated_at = now })
      × (db' ≡ record db { apps = modify app.id (save_expiry app') db.apps })
unfolding renew_app_expiry
renewed_app cfg now app app' db db' h = ground arith

-- The days that the setting stands for: 7, where it is 0.
abbrev pub IsDays : HostingSettings → ℕ → Type 0
IsDays cfg days =
    ((cfg.preview_ttl_days ≡ 0) × (days ≡ 7))
    ⊎ ((1 ≤ cfg.preview_ttl_days) × (days ≡ cfg.preview_ttl_days))

days_from :
    (cfg : HostingSettings) (now days : ℕ)
    → IsDays cfg days
    → preview_expires_at cfg now ≡ now + 86_400 * days
unfolding preview_expires_at ttl_days
days_from cfg now days (inl (unset, seven)) = rw (unset, seven) refl
days_from cfg now days (inr (set, same)) = ground arith

saved_row :
    (app app' row : App) (db db' : Db) (now : ℕ) (end : Option ℕ)
    → app' ≡ record app { expires_at = end; updated_at = now }
    → db' ≡ record db { apps = modify app.id (save_expiry app') db.apps }
    → db.apps.row app.id ≡ some row
    → db'.apps.row app.id ≡ some (record row { expires_at = end; updated_at = now })
saved_row app app' row db db' now end here saved there =
    ap (λ (d : Db). d.apps.row app.id) saved ∙ rw ((==_iff app.id app.id).1 refl, there, here) refl

-- A renewal of a stored app at a time `now` that succeeds sets the end of the app and of its stored
-- row, and no other field but the time of the update, to as many times 86400 seconds after `now` as
-- the setting has days, or 7 where the setting is 0; and whichever store and setting a later renewal
-- of the app meets, it is refused as expired exactly from that moment on.
pub renew_app_expiry-lifetime :
    (cfg cfg' : HostingSettings) (now t days : ℕ) (app app' row : App) (db db' db'' : Db)
    → IsDays cfg days
    → db.apps.row app.id ≡ some row
    → renew_app_expiry cfg now app db ≡ ok (db', app')
    → (app' ≡ record app { expires_at = some (now + 86_400 * days); updated_at = now })
      × (db'.apps.row app.id
          ≡ some (record row { expires_at = some (now + 86_400 * days); updated_at = now }))
      × ((renew_app_expiry cfg' t app' db'' ≡ err preview_expired) ↔ (now + 86_400 * days ≤ t))
renew_app_expiry-lifetime cfg cfg' now t days app app' row db db' db'' some_days there h =
    let (made, saved) = renewed_app cfg now app app' db db' h in
    let end = days_from cfg now days some_days in
    let here = made ∙ ap (λ n. record app { expires_at = some n; updated_at = now }) end in
    let same = ap (λ (a : App). a.expires_at) here in
    let (out, back) = renew_app_expiry-expired_iff cfg' t app' db'' in
    (
      here,
      saved_row app app' row db db' now _ here saved there,
      (
        λ e.
            let (n, is, past) = out e in
            let at : n ≡ now + 86_400 * days = cc (is, same) in omega arith,
        λ past. back (now + 86_400 * days, same, past),
      ),
    )
