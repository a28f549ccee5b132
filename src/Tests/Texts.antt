-- ===== src/Tests/Texts.antt =====
-- Examples on names, paths and versions.
use hosting_service.Base.{
  ◌≡◌, refl, ◌↔◌, ◌⊎◌, false, some, [], map, arith, Text, codes, text_eq, text_eq_iff, is_one_of,
  starts_with, contains_text, strip, strip_slashes, split, join, Lacks, length, All, lower_char,
  ascii_only, ok,
}
use hosting_service.Hosting.Slug.{
  validate_slug, reserved_slugs, generate_public_slug, generate_from, candidate, choices,
}
use hosting_service.Hosting.Slug.Shape.{IsSlug, validate_slug_iff}
use hosting_service.Hosting.Slug.Generated.{generate_public_slug-valid}
use hosting_service.Hosting.Paths.{
  normalize_relative_path, windows_absolute, dotdot, validate_serve_path, unquote, is_percent,
  normpath, raw_path_has_traversal, encoded_dotdot, dots_here, dots_after_boundary,
}
use hosting_service.Hosting.Paths.Normal.{IsPlain}
use hosting_service.Hosting.Paths.Levels.{normal_form, normalize_relative_path-eq-normal_form}
use hosting_service.Hosting.Paths.Requests.{validate_serve_path-IsPlain, validate_serve_path_fixed}
use hosting_service.Hosting.Semver.{parse, compare_versions, compare_parsed, before, version_lt}
use hosting_service.Hosting.Semver.Order.{release_before_prerelease}
use hosting_service.Tests.{first_choice}

validate_slug_iff_example : (validate_slug ascii_only (codes " My-App ") ≡ ok (codes "my-app")) ↔ (
    (map lower_char (strip (codes " My-App ")) ≡ codes "my-app")
    × IsSlug (codes "my-app")
    × (is_one_of (codes "my-app") reserved_slugs ≡ false))
validate_slug_iff_example = validate_slug_iff ascii_only (codes " My-App ") (codes "my-app")

abbrev twelve : Text
twelve = codes "aaaaaaaaaaaa"

drawn : generate_public_slug first_choice (λ s. false) ≡ ok twelve
unfolding generate_public_slug generate_from candidate choices
drawn = refl

generate_public_slug-valid_example :
    (false ≡ false) × (length twelve ≡ 12) × (validate_slug ascii_only twelve ≡ ok twelve)
generate_public_slug-valid_example =
    generate_public_slug-valid ascii_only first_choice (λ s. false) twelve drawn

normalize_relative_path-eq-normal_form_example :
    normalize_relative_path (some (codes "/./css\\site.css/"))
    ≡ normal_form (codes "/./css\\site.css/")
normalize_relative_path-eq-normal_form_example =
    normalize_relative_path-eq-normal_form (codes "/./css\\site.css/")

served : validate_serve_path (codes "/css/%73ite.css") ≡ ok (codes "css/site.css")
unfolding validate_serve_path normalize_relative_path unquote normpath raw_path_has_traversal
    encoded_dotdot dots_here dots_after_boundary strip_slashes split join contains_text starts_with
    windows_absolute
served = refl

validate_serve_path-IsPlain_example :
    (codes "css/site.css" ≡ []) ⊎ All IsPlain (split b'/' (codes "css/site.css"))
validate_serve_path-IsPlain_example =
    validate_serve_path-IsPlain (codes "/css/%73ite.css") (codes "css/site.css") served

IsPlain-name :
    (s : Text)
    → text_eq s [] ≡ false
    → text_eq s (codes ".") ≡ false
    → text_eq s dotdot ≡ false
    → Lacks b'/' s
    → IsPlain s
IsPlain-name s some_name here up level = record {
  some_name = λ e. cc (some_name, (text_eq_iff s []).1 e);
  not_here = λ e. cc (here, (text_eq_iff s (codes ".")).1 e);
  not_up = λ e. cc (up, (text_eq_iff s dotdot).1 e);
  one_level = level;
}

IsPlain-parts : All IsPlain (split b'/' (codes "a/b.js"))
unfolding split
IsPlain-parts = (
  IsPlain-name (codes "a") refl refl refl (omega arith),
  (IsPlain-name (codes "b.js") refl refl refl (omega arith), tt),
)

no_percent : All (λ c. is_percent c ≡ false) (codes "a/b.js")
no_percent = (refl, (refl, (refl, (refl, (refl, (refl, tt))))))

no_dots : contains_text dotdot (codes "a/b.js") ≡ false
unfolding contains_text
no_dots = refl

no_drive : windows_absolute (codes "a/b.js") ≡ false
unfolding windows_absolute
no_drive = refl

validate_serve_path_fixed_example : validate_serve_path (codes "a/b.js") ≡ ok (codes "a/b.js")
validate_serve_path_fixed_example =
    validate_serve_path_fixed (codes "a/b.js") IsPlain-parts no_percent no_dots (omega arith)
      no_drive

compared : compare_versions ascii_only (codes "1.2.3") (codes "v1.10.0") ≡ ok before
unfolding compare_versions parse version_lt strip
compared = refl

compared_next : compare_versions ascii_only (codes "v1.10.0") (codes "2.0.0") ≡ ok before
unfolding compare_versions parse version_lt strip
compared_next = refl

release_before_prerelease_example :
    compare_parsed
      (record { major = 1; minor = 0; patch = 0; prerelease = [] })
      (record { major = 1; minor = 0; patch = 0; prerelease = codes "beta" })
    ≡ before
release_before_prerelease_example = release_before_prerelease 1 0 0 b'b' (codes "eta")
