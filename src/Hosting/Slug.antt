-- ===== src/Hosting/Slug.antt =====
-- apps/hosting/slug.py: app names and public URL slugs.
pub mod Shape
pub mod Generated
use hosting_service.Base.{
  ℕ, zero, suc, ◌+◌, ◌*◌, ◌<◌, ◌≡◌, Bool, true, false, not, ◌&&◌, ◌||◌, List, [], ◌∷◌, ◌++◌, Text,
  codes, is_one_of, strip, length, all, if◌then◌else◌, ◌==◌, leb, is_lower, is_digit, Unicode,
  Result, ok, err,
}

-- SLUG_PATTERN and APP_NAME_PATTERN
abbrev pub is_slug_char : ℕ → Bool
is_slug_char c = is_lower c || is_digit c || c == b'-'

unfoldable pub matches_slug_pattern : Text → Bool
matches_slug_pattern [] = false
matches_slug_pattern (c ∷ s) =
    is_lower c && (leb 2 (length s) && leb (length s) 62) && all is_slug_char s

abbrev pub public_slug_length : ℕ
public_slug_length = 12

abbrev pub ascii_lowercase : Text
ascii_lowercase = codes "abcdefghijklmnopqrstuvwxyz"

abbrev pub public_slug_alphabet : Text
public_slug_alphabet = ascii_lowercase ++ codes "0123456789"

abbrev pub reserved_slugs : List Text
reserved_slugs =
    codes "admin"
    ∷ codes "api"
    ∷ codes "apps"
    ∷ codes "health"
    ∷ codes "hosting"
    ∷ codes "stats"
    ∷ codes "access"
    ∷ codes "deployments"
    ∷ codes "preview"
    ∷ []

-- The two messages of `ValueError`.
pub data SlugError : Type 0 where
  malformed reserved : SlugError

unfoldable pub validate_app_name : Unicode → Text → Result SlugError Text
unfolding matches_slug_pattern is_one_of
validate_app_name u value =
    let name = u.lower (strip value) in
    if not (matches_slug_pattern name)
    then err malformed
    else if is_one_of name reserved_slugs
    then err reserved
    else ok name

unfoldable pub validate_slug : Unicode → Text → Result SlugError Text
unfolding matches_slug_pattern is_one_of
validate_slug u value =
    let slug = u.lower (strip value) in
    if not (matches_slug_pattern slug)
    then err malformed
    else if is_one_of slug reserved_slugs
    then err reserved
    else ok slug

-- `secrets.choice`: call number k on a sequence of n elements picks the element `choose k n`.
pub record Secrets : Type 0 where
  pub choose : ℕ → ℕ → ℕ
  pub choose_lt : (k n : ℕ) → 0 < n → choose k n < n

abbrev pub get_or : Text → ℕ → ℕ → ℕ
get_or [] i d = d
get_or (c ∷ s) zero d = c
get_or (c ∷ s) (suc i) d = get_or s i d

abbrev pub choice : Secrets → ℕ → Text → ℕ
choice r k s = get_or s (r.choose k (length s)) 0

-- `''.join(secrets.choice(PUBLIC_SLUG_ALPHABET) for _ in range(n))`
unfoldable pub choices : Secrets → ℕ → ℕ → Text
choices r k zero = []
choices r k (suc n) = choice r k public_slug_alphabet ∷ choices r (k + 1) n

-- The candidate of the round whose first call is number k.
unfoldable pub candidate : Secrets → ℕ → Text
unfolding choices
candidate r k = choice r k ascii_lowercase ∷ choices r (k + 1) 11

pub data Exhausted : Type 0 where
  exhausted : Exhausted

-- The loop, with the rounds that are left and the calls that were made.
unfoldable pub generate_from : Secrets → (Text → Bool) → ℕ → ℕ → Result Exhausted Text
generate_from r exists zero k = err exhausted
generate_from r exists (suc n) k =
    let rest = generate_from r exists n (k + public_slug_length) in
    let slug = candidate r k in if exists slug then rest else ok slug

unfoldable pub generate_public_slug : Secrets → (Text → Bool) → Result Exhausted Text
generate_public_slug r exists = generate_from r exists 32 0
