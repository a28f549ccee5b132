-- ===== src/Hosting/Serve/Answers.antt =====
-- What a request is answered with.
use hosting_service.Base.{
  ℕ, ◌≡◌, ◌≢◌, refl, sym, ap, ◌∙◌, ◌⊎◌, inl, inr, Bool, true, false, not, ◌&&◌, ◌||◌, Option, none,
  some, List, [], ◌∷◌, ◌++◌, arith, Text, codes, text_eq, text_eq_iff, is_one_of, is_slash, split,
  push_head, Lacks, split-ne-nil, EndsClean, strip_right_clean, is_empty, All, Bool-cases,
  if◌then◌else◌, Unicode, Result, ok, err,
}
use hosting_service.Hosting.Models.{App, Deployment}
use hosting_service.Hosting.Storage.{
  Bytes, open_extracted_file, extracted_index_exists, extracted_file_key,
}
use hosting_service.Hosting.Storage.Keys.{IsBelow, extracted_file_key-IsBelow}
use hosting_service.Hosting.Expiry.{is_preview_expired}
use hosting_service.Hosting.Deployments.{Site, World, Loaded}
use hosting_service.Hosting.Paths.{PathError, validate_serve_path}
use hosting_service.Hosting.Paths.Normal.{IsPlain}
use hosting_service.Hosting.Paths.Requests.{validate_serve_path-IsPlain, IsPlain-EndsClean}
use hosting_service.Hosting.Serve.{
  load_app, is_served, looks_like_static_asset, CacheControl, cache_control_for, ends_with,
  index_html, own_candidates, fallbacks, first_open, or_next, Response, unavailable,
  site_unavailable, file, file_response, pick_file, asset, serve_path, serve_deployment, serve_app,
  get,
}

-- The path of a file that may be answered.
abbrev IsServable : Text → Type 0
IsServable rel = All IsPlain (split b'/' rel)

IsPlain-name :
    (s : Text)
    → text_eq s [] ≡ false
    → text_eq s (codes ".") ≡ false
    → text_eq s (codes "..") ≡ false
    → Lacks b'/' s
    → IsPlain s
IsPlain-name s some_name here up level = record {
  some_name = λ e. cc (some_name, (text_eq_iff s []).1 e);
  not_here = λ e. cc (here, (text_eq_iff s (codes ".")).1 e);
  not_up = λ e. cc (up, (text_eq_iff s (codes "..")).1 e);
  one_level = level;
}

index-IsServable : IsServable index_html
unfolding split
index-IsServable = (IsPlain-name index_html refl refl refl (omega arith), tt)

not_found-IsServable : IsServable (codes "404.html")
unfolding split
not_found-IsServable = (IsPlain-name (codes "404.html") refl refl refl (omega arith), tt)

-- A slash between two texts joins their parts.
push_head-append :
    (c : ℕ) (ws vs : List Text) → ws ≢ [] → push_head c (ws ++ vs) ≡ push_head c ws ++ vs
push_head-append c [] vs h = absurd (h refl)
push_head-append c (w ∷ ws) vs h = refl

split-slash : (s t : Text) → split b'/' (s ++ b'/' ∷ t) ≡ split b'/' s ++ split b'/' t
unfolding split
split-slash [] t = refl
split-slash (c ∷ s) t =
    ground (
      arith,
      split-slash s t,
      push_head-append c (split b'/' s) (split b'/' t) (split-ne-nil b'/' s),
    )

All-join : (ws vs : List Text) → All IsPlain ws → All IsPlain vs → All IsPlain (ws ++ vs)
All-join [] vs h k = k
All-join (w ∷ ws) vs (p, h) k = (p, All-join ws vs h k)

no_last_slash : (s : Text) → EndsClean is_slash s → ends_with s (codes "/") ≡ false
no_last_slash [] h = refl
no_last_slash (c ∷ []) h = ground arith
no_last_slash (c ∷ d ∷ s) h = ground (arith, no_last_slash (d ∷ s) h)

not_root : (r : Text) → IsServable r → is_empty r ≡ false
unfolding split
not_root [] h = absurd (h.0.some_name refl)
not_root (c ∷ r) h = refl

own-IsServable :
    (u : Unicode) (r : Text) → (r ≡ []) ⊎ IsServable r → All IsServable (own_candidates u r)
own-IsServable u r (inl root) = rw root (index-IsServable, tt)
own-IsServable u r (inr plain) =
    let clean = IsPlain-EndsClean r plain in
    rw (not_root r plain, no_last_slash r clean)
      (elim (Bool-cases (looks_like_static_asset u r)) [
        | inl static ↦ rw static (plain, tt)
        | inr route ↦
            rw (route, strip_right_clean is_slash r clean)
              (
                plain,
                (
                  rw (split-slash r index_html)
                      (All-join (split b'/' r) (split b'/' index_html) plain index-IsServable),
                  tt,
                ),
              )
      ])

fallbacks-IsServable : (u : Unicode) (r : Text) → All IsServable (fallbacks u r)
fallbacks-IsServable u r = elim (Bool-cases (not (is_empty r) && looks_like_static_asset u r)) [
  | inl static ↦ rw static tt
  | inr route ↦ rw route (not_found-IsServable, (index-IsServable, tt))
]

IsServable-append :
    (ws vs : List Text) → All IsServable ws → All IsServable vs → All IsServable (ws ++ vs)
IsServable-append [] vs h k = k
IsServable-append (w ∷ ws) vs (p, h) k = (p, IsServable-append ws vs h k)

file_fields :
    {r r' : Text} {b b' : Bytes} {c c' : CacheControl}
    → file r b c ≡ file r' b' c'
    → (r ≡ r') × (b ≡ b') × (c ≡ c')
file_fields h = (cc, cc, cc)

-- The guards of a request for a path.
guarded :
    (static has_index : Bool) (own page : Response) (rel : Text) (content : Bytes)
    (control : CacheControl)
    → (if static then own else if not has_index then site_unavailable unavailable else page)
      ≡ file rel content control
    → ((static ≡ true) × (own ≡ file rel content control)) ⊎ (page ≡ file rel content control)
guarded true has_index own page rel content control h = inl (refl, h)
guarded false true own page rel content control h = inr h
guarded false false own page rel content control h = cc

-- A static asset is not the root.
static_plain :
    (u : Unicode) (r : Text)
    → not (is_empty r) && looks_like_static_asset u r ≡ true
    → (r ≡ []) ⊎ IsServable r
    → IsServable r
static_plain u r h (inl root) = cc (rw root at h)
static_plain u r h (inr plain) = plain

same_file : {a b : Text × Bytes} → some a ≡ some b → a ≡ b
same_file h = cc

module _ (open_file : Text → Option Bytes) where
  or_next-some :
      (c rel : Text) (o : Option Bytes) (rest : Option (Text × Bytes)) (content : Bytes)
      → or_next c o rest ≡ some (rel, content)
      → ((c ≡ rel) × (o ≡ some content)) ⊎ (rest ≡ some (rel, content))
  or_next-some c rel none rest content h = inr h
  or_next-some c rel (some b) rest content h =
      inl (ap (λ p. p.0) (same_file h), ap (λ p. some p.1) (same_file h))

  -- What is opened is one of the candidates.
  first_open_sound :
      (cs seen : List Text) (rel : Text) (content : Bytes)
      → All IsServable cs
      → first_open open_file seen cs ≡ some (rel, content)
      → IsServable rel × (open_file rel ≡ some content)
  unfolding first_open
  first_open_sound [] seen rel content k h = cc
  first_open_sound (c ∷ cs) seen rel content (p, k) h =
      elim (Bool-cases (is_empty c || is_one_of c seen)) [
        | inl skipped ↦ first_open_sound cs seen rel content k (rw skipped at h)
        | inr tried ↦ elim (or_next-some c rel (open_file c) _ content (rw tried at h)) [
          | inl (same, opened) ↦ (rw (← same) p, rw (← same) opened)
          | inr later ↦ first_open_sound cs (c ∷ seen) rel content k later
        ]
      ]

  file_response-file :
      (u : Unicode) (o : Option (Text × Bytes)) (rel : Text) (content : Bytes)
      (control : CacheControl)
      → file_response u o ≡ file rel content control
      → (o ≡ some (rel, content)) × (control ≡ cache_control_for u rel)
  file_response-file u none rel content control h = cc
  file_response-file u (some (r, b)) rel content control h =
      let (path, bytes, same) = file_fields h in
      (
        ap some (ap (λ x. (x, b)) path ∙ ap (λ y. (rel, y)) bytes),
        sym same ∙ ap (cache_control_for u) path,
      )

  asset-some :
      (r rel : Text) (o : Option Bytes) (content : Bytes)
      → asset r o ≡ some (rel, content)
      → (r ≡ rel) × (o ≡ some content)
  asset-some r rel none content h = cc
  asset-some r rel (some b) content h =
      (ap (λ p. p.0) (same_file h), ap (λ p. some p.1) (same_file h))

  serve_path-file :
      (u : Unicode) (has_index : Bool) (path : Text) (o : Result PathError Text) (rel : Text)
      (content : Bytes) (control : CacheControl)
      → validate_serve_path path ≡ o
      → serve_path u open_file has_index o ≡ file rel content control
      → IsServable rel × (open_file rel ≡ some content) × (control ≡ cache_control_for u rel)
  serve_path-file u has_index path (err e) rel content control v h = cc
  serve_path-file u has_index path (ok r) rel content control v h =
      elim (guarded (not (is_empty r) && looks_like_static_asset u r) has_index
        (file_response u (asset r (open_file r))) (file_response u (pick_file u open_file r)) rel
        content control h) [
          | inl (static, e) ↦
              let (found, kept) =
                file_response-file u (asset r (open_file r)) rel content control e in
              let (same, opened) = asset-some r rel (open_file r) content found in
              let plain = validate_serve_path-IsPlain path r v in
              (rw (← same) (static_plain u r static plain), rw (← same) opened, kept)
          | inr e ↦
              let (found, kept) =
                file_response-file u (pick_file u open_file r) rel content control e in
              let (plain, opened) =
                first_open_sound (own_candidates u r ++ fallbacks u r) [] rel content
                  (IsServable-append (own_candidates u r) (fallbacks u r)
                    (own-IsServable u r (validate_serve_path-IsPlain path r v))
                    (fallbacks-IsServable u r))
                  found in
              (plain, opened, kept)
        ]

-- What a request was answered from.
pub record IsAnswer (site : Site) (wall : ℕ) (w : World site) (hit : Option Loaded) (rel : Text)
    (content : Bytes) (control : CacheControl) : Type 0 where
  pub app : App
  pub deployment : Deployment
  pub found : hit ≡ some (app, some deployment)
  pub alive : is_preview_expired wall app ≡ false
  pub published : is_served deployment.status ≡ true
  pub stored :
      open_extracted_file site.storage site.store w.files deployment.storage_prefix rel
      ≡ some content
  pub plain : All IsPlain (split b'/' rel)
  pub below :
      IsBelow site.store deployment.storage_prefix rel
        (extracted_file_key site.store deployment.storage_prefix rel)
  pub kept : control ≡ cache_control_for site.unicode rel

module _ (site : Site) (wall : ℕ) (path : Text) (w : World site) where
  answer :
      (app : App) (d : Deployment) (rel : Text) (content : Bytes) (control : CacheControl)
      → is_preview_expired wall app ≡ false
      → is_served d.status ≡ true
      → serve_deployment site w.files path (some d) ≡ file rel content control
      → IsAnswer site wall w (some (app, some d)) rel content control
  answer app d rel content control alive published h =
      let (plain, stored, kept) =
        serve_path-file (open_extracted_file site.storage site.store w.files d.storage_prefix)
          site.unicode (extracted_index_exists site.storage site.store w.files d.storage_prefix)
          path (validate_serve_path path) rel content control refl h in
      record {
        app = app;
        deployment = d;
        found = refl;
        alive = alive;
        published = published;
        stored = stored;
        plain = plain;
        below = extracted_file_key-IsBelow site.store d.storage_prefix rel plain;
        kept = kept;
      }

  served_from :
      (hit : Option Loaded) (rel : Text) (content : Bytes) (control : CacheControl)
      → serve_app site wall w.files path hit ≡ file rel content control
      → IsAnswer site wall w hit rel content control
  served_from none rel content control h = cc
  served_from (some (app, none)) rel content control h =
      elim (Bool-cases (is_preview_expired wall app)) [
        | inl over ↦ cc (rw over at h)
        | inr alive ↦ cc (rw alive at h)
      ]
  served_from (some (app, some d)) rel content control h =
      elim (Bool-cases (is_preview_expired wall app)) [
        | inl over ↦ cc (rw over at h)
        | inr alive ↦ elim (Bool-cases (is_served d.status)) [
          | inl published ↦
              answer app d rel content control alive published (rw (alive, published) at h)
          | inr hidden ↦ cc (rw (alive, hidden) at h)
        ]
      ]

  -- A request is answered by a file only if the app of its slug was found and has not expired and its
  -- deployment is a published one; the path of the file is then a chain of plain names, the content is
  -- what the storage holds at the key that `extracted_file_key` makes of this path, with the
  -- Cache-Control of the path; and unless the path ends in white space, which the key loses, the key
  -- is that of the extracted directory, a slash and the path.
  pub get-IsAnswer :
      (ttl now : ℕ) (slug rel : Text) (content : Bytes) (control : CacheControl)
      → (get site ttl now wall slug path w).1 ≡ file rel content control
      → IsAnswer site wall w (load_app ttl now slug w.db w.cache).1 rel content control
  unfolding get
  get-IsAnswer ttl now slug rel content control h =
      served_from (load_app ttl now slug w.db w.cache).1 rel content control h
