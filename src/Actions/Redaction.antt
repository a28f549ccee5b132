-- ===== src/Actions/Redaction.antt =====
-- apps/actions/secret_redaction.py: secrets are dropped from a value before it is stored or sent.
use hosting_service.Base.{
  ℕ, ◌-◌, ◌/◌, Bool, true, false, ◌&&◌, ◌||◌, Option, none, some, List, [], ◌∷◌, map, Text, codes,
  text_eq, is_one_of, starts_with, contains_text, strip, replace_char, length, drop, is_empty,
  if◌then◌else◌, ◌==◌, is_lower, is_digit, lower_char, Unicode,
}
use hosting_service.Actions.Values.{
  Value, null, boolean, integer, real, string, array, object, Items, nil, cons, Fields, end, field,
}
pub mod Clean

abbrev pub sensitive_keys : List Text
sensitive_keys =
    codes "magic_link"
    ∷ codes "magic_link_url"
    ∷ codes "token"
    ∷ codes "raw_token"
    ∷ codes "access_token"
    ∷ codes "refresh_token"
    ∷ codes "id_token"
    ∷ codes "setup_token"
    ∷ codes "sign_in_url"
    ∷ codes "sign_in_link"
    ∷ codes "signin_url"
    ∷ codes "signin_link"
    ∷ codes "password"
    ∷ codes "passwd"
    ∷ codes "pwd"
    ∷ codes "secret"
    ∷ codes "client_secret"
    ∷ codes "api_key"
    ∷ codes "apikey"
    ∷ codes "authorization"
    ∷ codes "authorization_header"
    ∷ codes "credential"
    ∷ codes "credentials"
    ∷ codes "private_key"
    ∷ codes "signing_secret"
    ∷ []

-- `s.endswith(t)`
abbrev pub ends_with : Text → Text → Bool
ends_with [] t = is_empty t
ends_with (c ∷ s) t = text_eq (c ∷ s) t || ends_with s t

abbrev pub sensitive_name : Text → Bool
sensitive_name name =
    is_one_of name sensitive_keys
    || ends_with name (codes "_token")
    || ends_with name (codes "_tokens")
    || ends_with name (codes "_secret")
    || ends_with name (codes "_password")
    || ends_with name (codes "_api_key")

-- `_sensitive_key`
unfoldable pub sensitive_key : Unicode → Text → Bool
sensitive_key u key = sensitive_name (replace_char b'-' b'_' (u.lower (strip key)))

-- A character under IGNORECASE: the letters of ASCII, and the four others that match one of them.
abbrev pub fold_case : ℕ → ℕ
fold_case c =
    if c == 304 || c == 305
    then b'i'
    else if c == 383
    then b's'
    else if c == 8490
    then b'k'
    else lower_char c

-- The three alternatives of `_SIGN_IN_URL`, matched where the text begins.
abbrev pub magic_link_here : Text → Bool
magic_link_here s = starts_with s (codes "magic-link") || starts_with s (codes "magic_link")

-- `(?:[/?#]|$)`; `$` also matches before a newline at the end.
abbrev pub stops_here : Text → Bool
stops_here [] = true
stops_here (c ∷ s) = c == b'/' || c == b'?' || c == b'#' || c == 10 && is_empty s

abbrev pub path_here : Text → Text → Bool
path_here path s = starts_with s path && stops_here (drop (length path) s)

abbrev pub sign_in_here : Text → Bool
sign_in_here s = path_here (codes "/sign-in") s || path_here (codes "/signin") s

abbrev pub credential_here : Text → Bool
credential_here s =
    starts_with s (codes "token=")
    || starts_with s (codes "secret=")
    || starts_with s (codes "password=")
    || starts_with s (codes "api_key=")
    || starts_with s (codes "api-key=")
    || starts_with s (codes "apikey=")

abbrev pub is_name_char : ℕ → Bool
is_name_char c = is_lower c || is_digit c || c == b'_' || c == b'.' || c == b'-'

-- `[a-z0-9_.-]*` before the name of a credential.
unfoldable pub credential_follows : Text → Bool
credential_follows [] = credential_here []
credential_follows (c ∷ s) = credential_here (c ∷ s) || is_name_char c && credential_follows s

abbrev pub parameter_here : Text → Bool
parameter_here [] = false
parameter_here (c ∷ s) = (c == b'?' || c == b'&' || c == b'#') && credential_follows s

-- `_SIGN_IN_URL.search`, in a text whose case was folded.
unfoldable pub search_sign_in_url : Text → Bool
search_sign_in_url [] = false
search_sign_in_url (c ∷ s) =
    magic_link_here (c ∷ s)
    || sign_in_here (c ∷ s)
    || parameter_here (c ∷ s)
    || search_sign_in_url s

-- `_sensitive_string`
unfoldable pub sensitive_string : Text → Bool
sensitive_string s = contains_text (codes "://") s && search_sign_in_url (map fold_case s)

abbrev pub kept_item : Option Value → Items → Items
kept_item none rest = rest
kept_item (some v) rest = cons v rest

abbrev pub kept_field : Bool → Text → Option Value → Fields → Fields
kept_field true k o rest = rest
kept_field false k none rest = rest
kept_field false k (some v) rest = field k v rest

-- `_without_secrets`; `none` is its sentinel.
unfoldable mutual
  pub without_secrets : Unicode → Value → Option Value
  without_secrets u null = some null
  without_secrets u (boolean b) = some (boolean b)
  without_secrets u (integer n) = some (integer n)
  without_secrets u (real r) = some (real r)
  without_secrets u (string s) = if sensitive_string s then none else some (string s)
  without_secrets u (array xs) = some (array (without_items u xs))
  without_secrets u (object fs) = some (object (without_fields u fs))

  pub without_items : Unicode → Items → Items
  without_items u nil = nil
  without_items u (cons v xs) = kept_item (without_secrets u v) (without_items u xs)

  pub without_fields : Unicode → Fields → Fields
  without_fields u end = end
  without_fields u (field k v fs) =
      kept_field (sensitive_key u k) k (without_secrets u v) (without_fields u fs)

abbrev pub or_nothing : Value → Option Value → Value
or_nothing v (some kept) = kept
or_nothing (object fs) none = object end
or_nothing (array xs) none = array nil
or_nothing _ none = string []

unfoldable pub redact_secrets : Unicode → Value → Value
redact_secrets u v = or_nothing v (without_secrets u v)
