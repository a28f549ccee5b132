-- ===== src/Hosting/Hosts.antt =====
-- apps/hosting/hosts.py and apps/hosting/public_urls.py: from an app to its URL, and back.
use hosting_service.Base.{
  ℕ, ◌+◌, ◌/◌, Bool, not, ◌&&◌, ◌||◌, Option, none, some, List, [], ◌∷◌, ◌++◌, Text, codes, text_eq,
  is_one_of, strip, strip_left, strip_right, split, length, is_empty, if◌then◌else◌, ◌==◌, leb,
  Unicode, Result, ok, ◌>>=◌, ◌>>◌, raise_if,
}
pub mod Urls

abbrev pub is_dot : ℕ → Bool
is_dot c = c == b'.'

-- `host.split(':', 1)[0]`
abbrev pub before_colon : Text → Text
before_colon [] = []
before_colon (c ∷ s) = let rest = before_colon s in if c == b':' then [] else c ∷ rest

-- `_normalize`
unfoldable pub normalize_host : Unicode → Text → Text
normalize_host u host = strip_left is_dot (strip_right is_dot (u.lower (strip (before_colon host))))

abbrev pub reserved_hosts : List Text
reserved_hosts = codes "localhost" ∷ codes "testserver" ∷ []

abbrev pub reserved_labels : List Text
reserved_labels = codes "www" ∷ codes "hosting" ∷ codes "api" ∷ codes "admin" ∷ []

abbrev pub first_label : List Text → Option Text
first_label [] = none
first_label (w ∷ ws) =
    let slug = strip w in
    if not (leb 2 (length ws))
    then none
    else if is_empty slug || is_one_of slug reserved_labels
    then none
    else some slug

abbrev pub is_apex : Text → Text → Bool
is_apex app_domain host =
    not (is_empty app_domain)
    && (text_eq host app_domain || text_eq host (codes "www." ++ app_domain))

-- `is_ip` tells whether `ipaddress.ip_address` accepts the text; the domain is HOSTING_APP_DOMAIN.
unfoldable pub slug_from_host : Unicode → (Text → Bool) → Text → Text → Option Text
slug_from_host u is_ip app_domain host =
    let h = normalize_host u host in
    if is_empty h || is_one_of h reserved_hosts
    then none
    else if is_apex (normalize_host u app_domain) h
    then none
    else if is_ip h
    then none
    else first_label (split b'.' h)

-- `_app_domain` and `_app_scheme`, of the settings HOSTING_APP_DOMAIN and HOSTING_APP_SCHEME
unfoldable pub app_domain_of : Text → Text
app_domain_of setting = strip_left is_dot (strip setting)

abbrev pub or_https : Text → Text
or_https setting = if is_empty setting then codes "https" else setting

unfoldable pub app_scheme : Unicode → Text → Text
app_scheme u setting =
    let scheme = u.lower (strip (or_https setting)) in
    if is_one_of scheme (codes "http" ∷ codes "https" ∷ []) then scheme else codes "https"

pub data UrlError : Type 0 where
  slug_required domain_required : UrlError

-- The host of `build_app_url`.
abbrev pub app_host : Text → Text → Text
app_host slug domain = slug ++ b'.' ∷ domain

unfoldable pub build_app_url : Unicode → Text → Text → Text → Result UrlError Text
build_app_url u scheme domain slug = do
  raise_if (is_empty (strip slug)) slug_required
  raise_if (is_empty (app_domain_of domain)) domain_required
  ok (
      app_scheme u scheme
      ++ codes "://"
      ++ app_host (strip slug) (app_domain_of domain)
      ++ codes "/")
