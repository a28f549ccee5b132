-- ===== src/Hosting/Slug/Shape.antt =====
-- What the validators of slug.py accept.
use hosting_service.Base.{
  ℕ, ◌≤◌, ◌<◌, ◌≡◌, refl, ap, ◌∙◌, ◌↔◌, ◌⊎◌, true, false, not, [], ◌∷◌, arith, Text, is_one_of,
  strip, is_space, strip_both_none, length, all, All, All-map, if◌then◌else◌, is_upper,
  map-lower_char, Unicode, Result, ok, err,
}
use hosting_service.Hosting.Slug.{
  is_slug_char, matches_slug_pattern, reserved_slugs, validate_app_name, validate_slug, SlugError,
  malformed, reserved,
}

abbrev pub IsLetter : ℕ → Type 0
IsLetter c = (b'a' ≤ c) × (c ≤ b'z')

-- A lowercase letter, a digit or a hyphen.
abbrev pub IsSlugChar : ℕ → Type 0
IsSlugChar c = IsLetter c ⊎ ((b'0' ≤ c) × (c ≤ b'9')) ⊎ (c ≡ b'-')

abbrev pub BeginsWithLetter : Text → Type 0
BeginsWithLetter [] = ⊥
BeginsWithLetter (c ∷ s) = IsLetter c

-- What the error message promises of a name.
pub record IsSlug (s : Text) : Type 0 where
  pub long_enough : 3 ≤ length s
  pub short_enough : length s ≤ 63
  pub letter : BeginsWithLetter s
  pub chars : All IsSlugChar s

IsSlugChar-iff : (c : ℕ) → (is_slug_char c ≡ true) ↔ IsSlugChar c
IsSlugChar-iff c = (λ h. ground arith, λ h. ground arith)

all_iff : (s : Text) → (all is_slug_char s ≡ true) ↔ All IsSlugChar s
all_iff [] = (λ _. tt, λ _. refl)
all_iff (c ∷ s) = (
  λ h. ground (arith, all_iff s, IsSlugChar-iff c),
  λ h. rw ((IsSlugChar-iff c).1 h.0, (all_iff s).1 h.1),
)

matches-IsSlug : (s : Text) → matches_slug_pattern s ≡ true → IsSlug s
unfolding matches_slug_pattern
matches-IsSlug [] h = cc
matches-IsSlug (c ∷ s) h = record {
  long_enough = ground arith;
  short_enough = ground arith;
  letter = ground arith;
  chars = (ground (arith, IsSlugChar-iff c), (all_iff s).0 (ground arith));
}

IsSlug-matches : (s : Text) → IsSlug s → matches_slug_pattern s ≡ true
unfolding matches_slug_pattern
IsSlug-matches [] h = absurd h.letter
IsSlug-matches (c ∷ s) h = ground (arith, (all_iff s).1 h.chars.1)

-- A name of this shape has nothing to strip and nothing to lower.
plain_char : (c : ℕ) → IsSlugChar c → is_space c ≡ false
unfolding is_space
plain_char c h = ground arith

ascii_char : (c : ℕ) → IsSlugChar c → c < 128
ascii_char c h = omega arith

lower_case : (c : ℕ) → IsSlugChar c → is_upper c ≡ false
lower_case c h = ground arith

pub lower-strip_slug : (u : Unicode) (s : Text) → All IsSlugChar s → u.lower (strip s) ≡ s
unfolding strip
lower-strip_slug u s h =
    ap u.lower (strip_both_none is_space s (All-map _ _ plain_char s h))
    ∙ u.lower_ascii s (All-map _ _ ascii_char s h)
    ∙ map-lower_char s (All-map _ _ lower_case s h)

abbrev accept : Text → Result SlugError Text
accept s =
    if not (matches_slug_pattern s)
    then err malformed
    else if is_one_of s reserved_slugs
    then err reserved
    else ok s

accept_sound :
    (s s' : Text)
    → accept s' ≡ ok s
    → (s' ≡ s) × (matches_slug_pattern s' ≡ true) × (is_one_of s' reserved_slugs ≡ false)
accept_sound s s' h = ground arith

accept_iff :
    (s s' : Text)
    → (accept s' ≡ ok s) ↔ ((s' ≡ s) × IsSlug s × (is_one_of s reserved_slugs ≡ false))
accept_iff s s' = (
  λ h. let (e, m, r) = accept_sound s s' h in (e, rw e at (matches-IsSlug s' m), rw e at r),
  λ (e, m, r). rw (e, IsSlug-matches s m, r),
)

-- `validate_slug` returns a slug exactly when it is the trimmed lower case of the value, has the
-- shape of a slug (3 to 63 characters, a letter first, then letters, digits and hyphens) and is
-- none of the reserved ones.
pub validate_slug_iff :
    (u : Unicode) (value s : Text)
    → (validate_slug u value ≡ ok s)
      ↔ ((u.lower (strip value) ≡ s) × IsSlug s × (is_one_of s reserved_slugs ≡ false))
unfolding validate_slug
validate_slug_iff u value s = accept_iff s (u.lower (strip value))

-- The same holds of `validate_app_name`.
pub validate_app_name_iff :
    (u : Unicode) (value s : Text)
    → (validate_app_name u value ≡ ok s)
      ↔ ((u.lower (strip value) ≡ s) × IsSlug s × (is_one_of s reserved_slugs ≡ false))
unfolding validate_app_name
validate_app_name_iff u value s = accept_iff s (u.lower (strip value))

-- A slug that was accepted once is accepted again, as it is.
pub validate_slug_idempotent :
    (u : Unicode) (value s : Text) → validate_slug u value ≡ ok s → validate_slug u s ≡ ok s
validate_slug_idempotent u value s h =
    let (_, shape, free) = (validate_slug_iff u value s).0 h in
    (validate_slug_iff u s s).1 (lower-strip_slug u s shape.chars, shape, free)
