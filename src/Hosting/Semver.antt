-- ===== src/Hosting/Semver.antt =====
-- apps/hosting/semver.py: versions of apps and of the shell.
pub mod Order
use hosting_service.Base.{
  ℕ, ◌+◌, ◌*◌, ◌-◌, ◌≡◌, refl, Bool, true, false, ◌&&◌, ◌||◌, Option, none, some, [], ◌∷◌, Text,
  codes, text_eq, strip, all, is_empty, if◌then◌else◌, ◌==◌, ltb, is_lower, is_upper, is_digit,
  Unicode, ascii_only, Result, ok, err, ◌>>=◌, ◌>>◌,
}

pub record SemVer : Type 0 where
  pub major : ℕ
  pub minor : ℕ
  pub patch : ℕ
  pub prerelease : Text

-- The two messages of `ValueError`.
pub data VersionError : Type 0 where
  version_required invalid_semver : VersionError

infixl 5 ◌>>=?◌
abbrev ◌>>=?◌ {ℓ κ} : {A : Type ℓ} {B : Type κ} → Option A → (A → Option B) → Option B
none >>=? f = none
some a >>=? f = f a

-- (\d+), and `int` of it: the number so far, and whether there was a digit.
number_from : Unicode → Bool → ℕ → Text → Option (ℕ × Text)
number_from u seen acc [] = if seen then some (acc, []) else none
number_from u seen acc (c ∷ s) = elim (u.decimal c) [
  | none ↦ if seen then some (acc, c ∷ s) else none
  | some d ↦ number_from u true (10 * acc + d) s
]

-- A character that must come next.
expect : ℕ → Text → Option Text
expect c [] = none
expect c (d ∷ s) = if c == d then some s else none

skip_v : Text → Text
skip_v [] = []
skip_v (c ∷ s) = if c == b'v' then s else c ∷ s

-- [0-9A-Za-z.-]
is_prerelease_char : ℕ → Bool
is_prerelease_char c = is_digit c || is_upper c || is_lower c || c == b'.' || c == b'-'

-- (?:-(…+))?$
prerelease_of : Text → Option Text
unfolding is_prerelease_char
prerelease_of [] = some []
prerelease_of (c ∷ []) = none
prerelease_of (c ∷ d ∷ s) =
    if c == b'-' && all is_prerelease_char (d ∷ s) then some (d ∷ s) else none

-- _VERSION_RE.fullmatch, with the groups
match_version : Unicode → Text → Option SemVer
unfolding number_from expect skip_v prerelease_of
match_version u raw = number_from u false 0 (skip_v raw) >>=? λ (major, s1).
    expect b'.' s1 >>=? λ s2. number_from u false 0 s2 >>=? λ (minor, s3). expect b'.' s3 >>=? λ s4.
    number_from u false 0 s4 >>=? λ (patch, s5). prerelease_of s5 >>=? λ pre.
    some (record { major = major; minor = minor; patch = patch; prerelease = pre })

abbrev or_invalid : Option SemVer → Result VersionError SemVer
or_invalid none = err invalid_semver
or_invalid (some v) = ok v

-- `SemVer.parse`
unfoldable pub parse : Unicode → Text → Result VersionError SemVer
unfolding match_version
parse u value =
    let raw = strip value in
    if is_empty raw then err version_required else or_invalid (match_version u raw)

-- `<` on texts, by code points.
unfoldable pub text_lt : Text → Text → Bool
text_lt s [] = false
text_lt [] (d ∷ t) = true
text_lt (c ∷ s) (d ∷ t) = ltb c d || (c == d && text_lt s t)

-- The order that `dataclass(order=True)` gives: that of the tuples of fields.
unfoldable pub version_lt : SemVer → SemVer → Bool
unfolding text_lt
version_lt a b =
    ltb a.major b.major
    || (a.major == b.major
        && (ltb a.minor b.minor
            || (a.minor == b.minor
                && (ltb a.patch b.patch
                    || (a.patch == b.patch && text_lt a.prerelease b.prerelease)))))

abbrev pub version_eq : SemVer → SemVer → Bool
version_eq a b =
    a.major == b.major
    && a.minor == b.minor
    && a.patch == b.patch
    && text_eq a.prerelease b.prerelease

-- `current <= upper`
abbrev pub version_le : SemVer → SemVer → Bool
version_le a b = version_lt a b || version_eq a b

abbrev pub below_maximum : Unicode → SemVer → Option Text → Result VersionError Bool
below_maximum u current none = ok true
below_maximum u current (some maximum) =
    if is_empty maximum
    then ok true
    else (do upper ← parse u maximum; ok (version_le current upper))

unfoldable pub satisfies : Unicode → SemVer → Text → Option Text → Result VersionError Bool
satisfies u current minimum maximum = do
  lower ← parse u minimum
  if version_lt current lower then ok false else below_maximum u current maximum

-- The result of `compare_versions`: -1, 0 or 1.
pub data Comparison : Type 0 where
  before same after : Comparison

abbrev pub compare_parsed : SemVer → SemVer → Comparison
compare_parsed a b = if version_lt a b then before else if version_lt b a then after else same

unfoldable pub compare_versions : Unicode → Text → Text → Result VersionError Comparison
compare_versions u a b = do va ← parse u a; vb ← parse u b; ok (compare_parsed va vb)

parse_tests :
    (parse ascii_only (codes " v1.20.3-beta.1 ")
      ≡ ok (record { major = 1; minor = 20; patch = 3; prerelease = codes "beta.1" }))
    × (parse ascii_only (codes "not-a-version") ≡ err invalid_semver)
    × (parse ascii_only (codes "1.2.3-") ≡ err invalid_semver)
    × (parse ascii_only (codes "  ") ≡ err version_required)
unfolding parse strip
parse_tests = (refl, refl, refl, refl)
