-- ===== src/Tests/Hosts.antt =====
-- Examples on hosts.
use hosting_service.Base.{
  ◌≤◌, ◌≡◌, refl, false, some, [], ◌∷◌, arith, Text, codes, is_one_of, strip, strip_left, split,
  length, ascii_only, ok,
}
use hosting_service.Hosting.Slug.Shape.{IsSlug}
use hosting_service.Hosting.Hosts.{
  slug_from_host, app_host, build_app_url, app_scheme, app_domain_of,
}
use hosting_service.Hosting.Hosts.Urls.{IsDomain, slug_from_host-app_host}

abbrev domain : Text
domain = codes "shellui.app"

abbrev slug : Text
slug = codes "vpzzsxvzsmp7"

two_labels : 2 ≤ length (split b'.' domain)
unfolding split
two_labels = omega arith

domain-IsDomain : IsDomain domain
domain-IsDomain = record { chars = omega arith; starts = refl; ends = refl; labels = two_labels }

slug-IsSlug : IsSlug slug
slug-IsSlug = record {
  long_enough = omega arith;
  short_enough = omega arith;
  letter = omega arith;
  chars = omega arith;
}

not_reserved :
    is_one_of slug (codes "www" ∷ codes "hosting" ∷ codes "api" ∷ codes "admin" ∷ []) ≡ false
unfolding is_one_of
not_reserved = refl

slug_from_host-app_host_example :
    slug_from_host ascii_only (λ h. false) domain (app_host slug domain) ≡ some slug
slug_from_host-app_host_example =
    slug_from_host-app_host ascii_only (λ h. false) domain slug domain-IsDomain slug-IsSlug
      not_reserved refl

url :
    build_app_url ascii_only (codes " HTTP ") (codes ".shellui.app") slug
    ≡ ok (codes "http://vpzzsxvzsmp7.shellui.app/")
unfolding build_app_url app_scheme app_domain_of strip is_one_of strip_left
url = refl
