-- ===== src/Hosting/Serve.antt =====
-- apps/hosting/serve.py: which file of which deployment a request gets.
pub mod Fresh
pub mod Answers
use hosting_service.Base.{
  ℕ, ◌+◌, ◌-◌, ◌/◌, Bool, true, false, not, ◌&&◌, ◌||◌, Option, none, some, List, [], ◌∷◌, ◌++◌,
  map, Text, codes, text_eq, is_one_of, strip_right, is_slash, split, length, any, keep, is_empty,
  if◌then◌else◌, ◌==◌, leb, is_lower, is_upper, is_digit, Unicode, Result, ok, err,
}
use mathlib.Core.List.{reverse}
use hosting_service.Hosting.Models.{
  App, Deployment, DeploymentStatus, active, ready, superseded, Table, Db,
}
use hosting_service.Hosting.Storage.{Bytes, open_extracted_file, extracted_index_exists}
use hosting_service.Hosting.Expiry.{is_preview_expired}
use hosting_service.Hosting.Deployments.{Site, Cache, World, Loaded}
use hosting_service.Hosting.Apps.{find_app, has_slug}
use hosting_service.Hosting.Paths.{validate_serve_path, PathError}

-- An expired entry is dropped when it is met. `now` is the monotonic clock.
abbrev pub unexpired : ℕ → Text → Cache → Option (ℕ × Loaded) → Cache × Option Loaded
unexpired now slug cache none = (cache, none)
unexpired now slug cache (some (expires, hit)) =
    if leb expires now
    then (λ s. if text_eq slug s then none else cache s, none)
    else (cache, some hit)

unfoldable pub cache_get_app : ℕ → ℕ → Text → Cache → Cache × Option Loaded
cache_get_app ttl now slug cache =
    if ttl == 0 then (cache, none) else unexpired now slug cache (cache slug)

unfoldable pub cache_set_app : ℕ → ℕ → Text → Loaded → Cache → Cache
cache_set_app ttl now slug hit cache =
    if ttl == 0 then cache else λ s. if text_eq slug s then some (now + ttl, hit) else cache s

abbrev pub current_row : Option ℕ → Table Deployment → Option Deployment
current_row none t = none
current_row (some i) t = t.row i

abbrev pub with_current : Db → Option App → Option Loaded
with_current db none = none
with_current db (some app) = some (app, current_row app.current_deployment db.deployments)

-- What the database says of a slug.
unfoldable pub read_app : Text → Db → Option Loaded
read_app slug db = with_current db (find_app (has_slug slug) db)

abbrev pub remember : ℕ → ℕ → Text → Cache → Option Loaded → Cache × Option Loaded
remember ttl now slug cache none = (cache, none)
remember ttl now slug cache (some hit) = (cache_set_app ttl now slug hit cache, some hit)

abbrev pub or_read : ℕ → ℕ → Text → Db → Cache × Option Loaded → Cache × Option Loaded
or_read ttl now slug db (cache, some hit) = (cache, some hit)
or_read ttl now slug db (cache, none) = remember ttl now slug cache (read_app slug db)

unfoldable pub load_app : ℕ → ℕ → Text → Db → Cache → Cache × Option Loaded
load_app ttl now slug db cache = or_read ttl now slug db (cache_get_app ttl now slug cache)

abbrev pub is_served : DeploymentStatus → Bool
is_served active = true
is_served ready = true
is_served superseded = true
is_served _ = false

abbrev pub resolve_deployment : Option Deployment → Option Deployment
resolve_deployment none = none
resolve_deployment (some d) = if is_served d.status then some d else none

abbrev pub asset_extensions : List Text
asset_extensions =
    codes "js"
    ∷ codes "mjs"
    ∷ codes "cjs"
    ∷ codes "css"
    ∷ codes "map"
    ∷ codes "json"
    ∷ codes "svg"
    ∷ codes "png"
    ∷ codes "jpg"
    ∷ codes "jpeg"
    ∷ codes "gif"
    ∷ codes "webp"
    ∷ codes "ico"
    ∷ codes "woff"
    ∷ codes "woff2"
    ∷ codes "ttf"
    ∷ codes "otf"
    ∷ codes "eot"
    ∷ codes "txt"
    ∷ codes "xml"
    ∷ codes "wasm"
    ∷ codes "mp4"
    ∷ codes "webm"
    ∷ codes "mp3"
    ∷ codes "wav"
    ∷ []

abbrev pub last_or : Text → List Text → Text
last_or d [] = d
last_or d (w ∷ ws) = last_or w ws

-- `PurePosixPath(path).name`
abbrev pub path_name : Text → Text
path_name path =
    last_or [] (keep (λ w. not (is_empty w) && not (text_eq w (codes "."))) (split b'/' path))

-- `name.rsplit('.', 1)[-1]`
abbrev pub extension : Text → Text
extension name = last_or [] (split b'.' name)

unfoldable pub looks_like_static_asset : Unicode → Text → Bool
looks_like_static_asset u relative_path =
    let name = path_name relative_path in
    any (λ c. c == b'.') name && is_one_of (u.lower (extension name)) asset_extensions

abbrev pub is_alnum : ℕ → Bool
is_alnum c = is_lower c || is_upper c || is_digit c

-- The characters at the start of a text that pass a test, and the others.
abbrev pub cons_first : ℕ → Text × Text → Text × Text
cons_first c (s, t) = (c ∷ s, t)

abbrev pub span : (ℕ → Bool) → Text → Text × Text
span p [] = ([], [])
span p (c ∷ s) = let rest = span p s in if p c then cons_first c rest else ([], c ∷ s)

abbrev pub ends_hash : Text → Bool
ends_hash (c ∷ d ∷ s) = c == b'-' && not (any (λ x. x == b'\n') (d ∷ s))
ends_hash _ = false

abbrev pub ends_stem : Text × Text → Bool
ends_stem (extension, c ∷ s) =
    not (is_empty extension)
    && c == b'.'
    && (leb 6 (length (span is_alnum s).0) && ends_hash (span is_alnum s).1)
ends_stem (extension, []) = false

-- `$` also matches before a newline that ends the text.
abbrev pub without_newline : Text → Text
without_newline [] = []
without_newline (c ∷ s) = if c == b'\n' then s else c ∷ s

-- _HASHED_FILENAME.match, read from the end of the name.
unfoldable pub is_hashed_filename : Text → Bool
is_hashed_filename name = ends_stem (span is_alnum (without_newline (reverse name)))

unfoldable pub is_immutable_asset : Unicode → Text → Bool
is_immutable_asset u relative_path =
    looks_like_static_asset u relative_path && is_hashed_filename (path_name relative_path)

pub data CacheControl : Type 0 where
  no_cache one_year_immutable one_day : CacheControl

-- `s.endswith(t)`
abbrev pub ends_with : Text → Text → Bool
ends_with [] t = is_empty t
ends_with (c ∷ s) t = text_eq (c ∷ s) t || ends_with s t

unfoldable pub cache_control_for : Unicode → Text → CacheControl
cache_control_for u relative_path =
    if ends_with relative_path (codes ".html")
    then no_cache
    else if is_immutable_asset u relative_path
    then one_year_immutable
    else one_day

abbrev pub index_html : Text
index_html = codes "index.html"

abbrev pub own_candidates : Unicode → Text → List Text
own_candidates u rel =
    if is_empty rel || ends_with rel (codes "/")
    then (rel ++ index_html) ∷ []
    else if looks_like_static_asset u rel
    then rel ∷ []
    else rel ∷ (strip_right is_slash rel ++ codes "/index.html") ∷ []

abbrev pub fallbacks : Unicode → Text → List Text
fallbacks u rel =
    if not (is_empty rel) && looks_like_static_asset u rel
    then []
    else codes "404.html" ∷ index_html ∷ []

abbrev pub or_next : Text → Option Bytes → Option (Text × Bytes) → Option (Text × Bytes)
or_next candidate none rest = rest
or_next candidate (some content) rest = some (candidate, content)

-- The loop, with `open_extracted_file` of the deployment.
unfoldable pub first_open : (Text → Option Bytes) → List Text → List Text → Option (Text × Bytes)
first_open open_file seen [] = none
first_open open_file seen (c ∷ cs) =
    let skipped = first_open open_file seen cs in
    let rest = first_open open_file (c ∷ seen) cs in
    if is_empty c || is_one_of c seen then skipped else or_next c (open_file c) rest

pub data Reason : Type 0 where
  no_app expired unavailable : Reason

-- A page that says why there is no site, `Http404`, or a file with its Cache-Control.
pub data Response : Type 0 where
  site_unavailable : Reason → Response
  http_404 : Response
  file : Text → Bytes → CacheControl → Response

abbrev pub file_response : Unicode → Option (Text × Bytes) → Response
file_response u none = http_404
file_response u (some (rel, content)) = file rel content (cache_control_for u rel)

-- `_pick_file`, where `validate_serve_path` has accepted the path.
abbrev pub pick_file : Unicode → (Text → Option Bytes) → Text → Option (Text × Bytes)
pick_file u open_file rel = first_open open_file [] (own_candidates u rel ++ fallbacks u rel)

abbrev pub asset : Text → Option Bytes → Option (Text × Bytes)
asset rel none = none
asset rel (some content) = some (rel, content)

abbrev pub serve_path : Unicode → (Text → Option Bytes) → Bool → Result PathError Text → Response
serve_path u open_file has_index (err e) = http_404
serve_path u open_file has_index (ok rel) =
    if not (is_empty rel) && looks_like_static_asset u rel
    then file_response u (asset rel (open_file rel))
    else if not has_index
    then site_unavailable unavailable
    else file_response u (pick_file u open_file rel)

module _ (site : Site) where
  abbrev pub serve_deployment : site.storage.Files → Text → Option Deployment → Response
  serve_deployment files path none = site_unavailable unavailable
  serve_deployment files path (some d) =
      serve_path site.unicode (open_extracted_file site.storage site.store files d.storage_prefix)
        (extracted_index_exists site.storage site.store files d.storage_prefix)
        (validate_serve_path path)

  abbrev pub serve_app : ℕ → site.storage.Files → Text → Option Loaded → Response
  serve_app wall files path none = site_unavailable no_app
  serve_app wall files path (some (app, current)) =
      if is_preview_expired wall app
      then site_unavailable expired
      else serve_deployment files path (resolve_deployment current)

  -- `AppServeView.get` after `slug_from_host` gave a slug. `wall` is the time of day, `now` the
  -- monotonic clock, `ttl` the time to live of a cache entry.
  unfoldable pub get : ℕ → ℕ → ℕ → Text → Text → World site → World site × Response
  get ttl now wall slug path w =
      let (cache, hit) = load_app ttl now slug w.db w.cache in
      (record w { cache = cache }, serve_app wall w.files path hit)
