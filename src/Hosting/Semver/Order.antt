-- ===== src/Hosting/Semver/Order.antt =====
-- The order of versions.
use hosting_service.Base.{
  bind-eq-ok, ℕ, ◌≡◌, refl, ap, ◌∙◌, ◌↔◌, ◌⊎◌, inl, inr, true, false, [], ◌∷◌, arith, Text, text_eq,
  text_eq_iff, Unicode, Result, ok,
}
use hosting_service.Hosting.Semver.{
  SemVer, text_lt, version_lt, Comparison, before, same, after, compare_parsed, compare_versions,
  parse, VersionError,
}

-- The order of texts is irreflexive, transitive and total.
text_lt_trichotomy :
    (s t : Text)
    → ((text_lt s t ≡ true) × (text_lt t s ≡ false) × (text_eq s t ≡ false))
      ⊎ (((text_lt s t ≡ false) × (text_lt t s ≡ false) × (text_eq s t ≡ true))
          ⊎ ((text_lt s t ≡ false) × (text_lt t s ≡ true) × (text_eq s t ≡ false)))
unfolding text_lt
text_lt_trichotomy [] [] = inr (inl (refl, refl, refl))
text_lt_trichotomy [] (d ∷ t) = inl (refl, refl, refl)
text_lt_trichotomy (c ∷ s) [] = inr (inr (refl, refl, refl))
text_lt_trichotomy (c ∷ s) (d ∷ t) = ground (arith, text_lt_trichotomy s t)

text_lt_trans : (s t r : Text) → text_lt s t ≡ true → text_lt t r ≡ true → text_lt s r ≡ true
unfolding text_lt
text_lt_trans s [] r h k = cc
text_lt_trans s (d ∷ t) [] h k = cc
text_lt_trans [] (d ∷ t) (e ∷ r) h k = refl
text_lt_trans (c ∷ s) (d ∷ t) (e ∷ r) h k = ground (arith, text_lt_trans s t r)

version_lt_trans :
    (a b c : SemVer) → version_lt a b ≡ true → version_lt b c ≡ true → version_lt a c ≡ true
unfolding version_lt
version_lt_trans a b c h k = ground (arith, text_lt_trans a.prerelease b.prerelease c.prerelease)

abbrev pub flipped : Comparison → Comparison
flipped before = after
flipped same = same
flipped after = before

compare_flipped : (a b : SemVer) → compare_parsed b a ≡ flipped (compare_parsed a b)
unfolding version_lt
compare_flipped a b = ground (arith, text_lt_trichotomy a.prerelease b.prerelease)

text_lt_irrefl : (s : Text) → text_lt s s ≡ false
unfolding text_lt
text_lt_irrefl [] = refl
text_lt_irrefl (c ∷ s) = ground (arith, text_lt_irrefl s)

compare_same : (a : SemVer) → compare_parsed a a ≡ same
unfolding version_lt
compare_same a = ground (arith, text_lt_irrefl a.prerelease)

eq_of_same : (a b : SemVer) → compare_parsed a b ≡ same → a ≡ b
unfolding version_lt
eq_of_same a b h =
    ground
      (arith, text_lt_trichotomy a.prerelease b.prerelease, text_eq_iff a.prerelease b.prerelease)

before_lt : (a b : SemVer) → compare_parsed a b ≡ before → version_lt a b ≡ true
before_lt a b h = ground arith

before_trans :
    (a b c : SemVer)
    → compare_parsed a b ≡ before
    → compare_parsed b c ≡ before
    → compare_parsed a c ≡ before
before_trans a b c h k = rw (version_lt_trans a b c (before_lt a b h) (before_lt b c k))

parsed_once : (r : Result VersionError SemVer) (v w : SemVer) → r ≡ ok v → r ≡ ok w → v ≡ w
parsed_once r v w h k = cc

compared :
    (u : Unicode) (a b : Text) (c : Comparison)
    → compare_versions u a b ≡ ok c
    → (va : SemVer) × (vb : SemVer) × (parse u a ≡ ok va)
      × (parse u b ≡ ok vb)
      × (compare_parsed va vb ≡ c)
unfolding compare_versions
compared u a b c h =
    let (va, pa, h') = bind-eq-ok (parse u a) _ h in
    let (vb, pb, e) = bind-eq-ok (parse u b) _ h' in (va, vb, pa, pb, ground arith)

-- Comparing the other way round gives the opposite result.
pub compare_versions-flipped :
    (u : Unicode) (a b : Text) (c : Comparison)
    → compare_versions u a b ≡ ok c
    → compare_versions u b a ≡ ok (flipped c)
unfolding compare_versions
compare_versions-flipped u a b c h =
    let (va, vb, pa, pb, e) = compared u a b c h in
    rw (pb, pa) (ap ok (compare_flipped va vb ∙ ap flipped e))

-- Two versions compare as the same exactly when they parse to the same version.
pub compare_versions-same_iff :
    (u : Unicode) (a b : Text)
    → (compare_versions u a b ≡ ok same) ↔ ((v : SemVer) × (parse u a ≡ ok v) × (parse u b ≡ ok v))
unfolding compare_versions
compare_versions-same_iff u a b = (
  λ h. let (va, vb, pa, pb, e) = compared u a b same h in (va, pa, rw (eq_of_same va vb e) pb),
  λ (v, pa, pb). rw (pa, pb) (ap ok (compare_same v)),
)

-- What comes before something that comes before a third comes before that.
pub compare_versions_trans :
    (u : Unicode) (a b c : Text)
    → compare_versions u a b ≡ ok before
    → compare_versions u b c ≡ ok before
    → compare_versions u a c ≡ ok before
unfolding compare_versions
compare_versions_trans u a b c h k =
    let (va, vb, pa, pb, e) = compared u a b before h in
    let (vb', vc, pb', pc, e') = compared u b c before k in
    rw (pa, pc) (ap ok (before_trans va vb vc e (rw (parsed_once (parse u b) vb' vb pb' pb) at e')))

-- A release comes before every prerelease of it.
pub release_before_prerelease :
    (major minor patch c : ℕ) (s : Text)
    → compare_parsed
        (record { major = major; minor = minor; patch = patch; prerelease = [] })
        (record { major = major; minor = minor; patch = patch; prerelease = c ∷ s })
      ≡ before
unfolding version_lt
release_before_prerelease major minor patch c s = ground arith
