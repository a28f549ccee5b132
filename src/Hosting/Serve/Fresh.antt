-- ===== src/Hosting/Serve/Fresh.antt =====
-- The cache of apps/hosting/serve.py against the database.
use hosting_service.Base.{
  ℕ, ◌+◌, ◌<◌, ◌≡◌, refl, sym, ap, ◌∙◌, ◌⊎◌, inl, inr, Option, none, some, List, [], ◌∷◌, arith,
  Text, text_eq, text_eq_iff, text_eq_refl, Bool-cases, ◌==◌, leb,
}
use hosting_service.Hosting.Models.{Db}
use hosting_service.Hosting.Deployments.{Cache, Loaded, invalidate_serve_cache}
use hosting_service.Hosting.Serve.{
  unexpired, cache_get_app, cache_set_app, read_app, remember, or_read, load_app,
}

-- A request: when it came, its slug, and the database that it found.
abbrev pub Visit : Type 0
Visit = ℕ × Text × Db

-- The cache after the visits, the latest first.
unfoldable pub after_visits : ℕ → List Visit → Cache
after_visits ttl [] = λ s. none
after_visits ttl ((now, slug, db) ∷ vs) = (load_app ttl now slug db (after_visits ttl vs)).0

-- One of the visits read this from the database, `ttl` before the time e.
abbrev pub WasRead : ℕ → ℕ → Text → Loaded → List Visit → Type 0
WasRead ttl e slug hit [] = ⊥
WasRead ttl e slug hit ((now, s, db) ∷ vs) =
    ((s ≡ slug) × (now + ttl ≡ e) × (read_app s db ≡ some hit)) ⊎ WasRead ttl e slug hit vs

same_entry : {A : Type 0} {a b : A} → some a ≡ some b → a ≡ b
same_entry h = cc

module _ (now : ℕ) (slug : Text) (cache : Cache) where
  unexpired-entry :
      (o : Option (ℕ × Loaded)) (s : Text) (x : ℕ × Loaded)
      → (unexpired now slug cache o).0 s ≡ some x
      → cache s ≡ some x
  unexpired-entry none s x h = h
  unexpired-entry (some (e, hit)) s x h = elim (Bool-cases (leb e now)) [
    | inl over ↦ elim (Bool-cases (text_eq slug s)) [
      | inl here ↦ cc (rw (over, here) at h)
      | inr away ↦ rw (over, away) at h
    ]
    | inr live ↦ rw live at h
  ]

  unexpired-hit :
      (o : Option (ℕ × Loaded)) (hit : Loaded)
      → (unexpired now slug cache o).1 ≡ some hit
      → (e : ℕ) × (o ≡ some (e, hit)) × (now < e)
  unexpired-hit none hit h = cc
  unexpired-hit (some (e, found)) hit h = elim (Bool-cases (leb e now)) [
    | inl over ↦ cc (rw over at h)
    | inr live ↦
        let same : found ≡ hit = same_entry (rw live at h) in
        (e, ap (λ x. some (e, x)) same, ground arith)
  ]

  get-entry :
      (ttl : ℕ) (s : Text) (x : ℕ × Loaded)
      → (cache_get_app ttl now slug cache).0 s ≡ some x
      → cache s ≡ some x
  unfolding cache_get_app
  get-entry ttl s x h = elim (Bool-cases (ttl == 0)) [
    | inl off ↦ rw off at h
    | inr on ↦ unexpired-entry (cache slug) s x (rw on at h)
  ]

  get-hit :
      (ttl : ℕ) (hit : Loaded)
      → (cache_get_app ttl now slug cache).1 ≡ some hit
      → (e : ℕ) × (cache slug ≡ some (e, hit)) × (now < e)
  unfolding cache_get_app
  get-hit ttl hit h = elim (Bool-cases (ttl == 0)) [
    | inl off ↦ cc (rw off at h)
    | inr on ↦ unexpired-hit (cache slug) hit (rw on at h)
  ]

set-entry :
    (ttl now : ℕ) (slug s : Text) (hit : Loaded) (cache : Cache) (e : ℕ) (found : Loaded)
    → cache_set_app ttl now slug hit cache s ≡ some (e, found)
    → (cache s ≡ some (e, found)) ⊎ ((slug ≡ s) × (now + ttl ≡ e) × (hit ≡ found))
unfolding cache_set_app
set-entry ttl now slug s hit cache e found h = elim (Bool-cases (ttl == 0)) [
  | inl off ↦ inl (rw off at h)
  | inr on ↦ elim (Bool-cases (text_eq slug s)) [
    | inl here ↦
        let same = same_entry (rw (on, here) at h) in
        inr ((text_eq_iff slug s).0 here, ap (λ p. p.0) same, ap (λ p. p.1) same)
    | inr away ↦ inl (rw (on, away) at h)
  ]
]

remember-entry :
    (ttl now : ℕ) (slug s : Text) (cache : Cache) (o : Option Loaded) (e : ℕ) (hit : Loaded)
    → (remember ttl now slug cache o).0 s ≡ some (e, hit)
    → (cache s ≡ some (e, hit)) ⊎ ((slug ≡ s) × (now + ttl ≡ e) × (o ≡ some hit))
remember-entry ttl now slug s cache none e hit h = inl h
remember-entry ttl now slug s cache (some found) e hit h =
    elim (set-entry ttl now slug s found cache e hit h) [
      | inl old ↦ inl old
      | inr (here, time, same) ↦ inr (here, time, ap some same)
    ]

remember-hit :
    (ttl now : ℕ) (slug : Text) (cache : Cache) (o : Option Loaded)
    → (remember ttl now slug cache o).1 ≡ o
remember-hit ttl now slug cache none = refl
remember-hit ttl now slug cache (some hit) = refl

or_read-entry :
    (ttl now : ℕ) (slug s : Text) (db : Db) (p : Cache × Option Loaded) (e : ℕ) (hit : Loaded)
    → (or_read ttl now slug db p).0 s ≡ some (e, hit)
    → (p.0 s ≡ some (e, hit)) ⊎ ((slug ≡ s) × (now + ttl ≡ e) × (read_app slug db ≡ some hit))
or_read-entry ttl now slug s db (cache, some found) e hit h = inl h
or_read-entry ttl now slug s db (cache, none) e hit h =
    remember-entry ttl now slug s cache (read_app slug db) e hit h

after_visits-WasRead :
    (ttl : ℕ) (vs : List Visit) (s : Text) (e : ℕ) (hit : Loaded)
    → after_visits ttl vs s ≡ some (e, hit)
    → WasRead ttl e s hit vs
unfolding after_visits load_app
after_visits-WasRead ttl [] s e hit h = cc
after_visits-WasRead ttl ((now, slug, db) ∷ vs) s e hit h =
    let before = after_visits ttl vs in
    elim (or_read-entry ttl now slug s db (cache_get_app ttl now slug before) e hit h) [
      | inl old ↦
          inr (after_visits-WasRead ttl vs s e hit (get-entry now slug before ttl s (e, hit) old))
      | inr fresh ↦ inl fresh
    ]

or_read-hit :
    (ttl now : ℕ) (slug : Text) (db : Db) (p : Cache × Option Loaded)
    → ((or_read ttl now slug db p).1 ≡ p.1) ⊎ ((or_read ttl now slug db p).1 ≡ read_app slug db)
or_read-hit ttl now slug db (cache, some hit) = inl refl
or_read-hit ttl now slug db (cache, none) = inr (remember-hit ttl now slug cache (read_app slug db))

-- After any visits from an empty cache, an app that is loaded is what the database holds, or what an
-- earlier visit of the same slug read from it and whose time to live has not run out.
pub load_app-recent :
    (ttl now : ℕ) (slug : Text) (db : Db) (vs : List Visit) (hit : Loaded)
    → (load_app ttl now slug db (after_visits ttl vs)).1 ≡ some hit
    → (read_app slug db ≡ some hit) ⊎ ((e : ℕ) × (now < e) × WasRead ttl e slug hit vs)
unfolding load_app
load_app-recent ttl now slug db vs hit h =
    let before = after_visits ttl vs in
    elim (or_read-hit ttl now slug db (cache_get_app ttl now slug before)) [
      | inl cached ↦
          let (e, entry, live) = get-hit now slug before ttl hit (sym cached ∙ h) in
          inr (e, live, after_visits-WasRead ttl vs slug e hit entry)
      | inr read ↦ inl (sym read ∙ h)
    ]

-- A slug whose cache entry was invalidated is read from the database.
pub load_app-invalidate_serve_cache :
    (ttl now : ℕ) (slug : Text) (db : Db) (cache : Cache)
    → (load_app ttl now slug db (invalidate_serve_cache slug cache)).1 ≡ read_app slug db
unfolding load_app cache_get_app invalidate_serve_cache
load_app-invalidate_serve_cache ttl now slug db cache = elim (Bool-cases (ttl == 0)) [
  | inl off ↦ rw off (remember-hit ttl now slug _ (read_app slug db))
  | inr on ↦ rw (on, text_eq_refl slug) (remember-hit ttl now slug _ (read_app slug db))
]
