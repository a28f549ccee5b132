-- ===== src/Hosting/Hosts/Urls.antt =====
-- The hosts of apps and the slugs that are read from them.
use hosting_service.Base.{
  ℕ, suc, ◌≤◌, ◌<◌, ◌≡◌, ◌≢◌, refl, sym, ap, ◌∙◌, ◌⊎◌, inl, inr, Bool, true, false, some, List, [],
  ◌∷◌, ◌++◌, arith, Text, codes, text_eq, text_eq_iff, is_one_of, strip, is_space, split, Lacks,
  split-append, StartsClean, EndsClean, strip_right_clean, strip_left_clean, strip_both_none,
  length, is_empty, All, All-append, All-map, Bool-cases, leb, is_upper, map-lower_char, Unicode,
}
use hosting_service.Hosting.Slug.Shape.{IsSlug, IsSlugChar}
use hosting_service.Hosting.Hosts.{
  is_dot, before_colon, normalize_host, reserved_hosts, reserved_labels, first_label, is_apex,
  slug_from_host, app_host,
}

abbrev pub IsHostChar : ℕ → Type 0
IsHostChar c = IsSlugChar c ⊎ (c ≡ b'.')

-- A domain of at least two labels, in lower case, without a dot at its ends.
pub record IsDomain (domain : Text) : Type 0 where
  pub chars : All IsHostChar domain
  pub starts : StartsClean is_dot domain
  pub ends : EndsClean is_dot domain
  pub labels : 2 ≤ length (split b'.' domain)

no_colon : (s : Text) → All IsHostChar s → before_colon s ≡ s
no_colon [] h = refl
no_colon (c ∷ s) (p, h) = ground (arith, no_colon s h, p)

host_plain : (c : ℕ) → IsHostChar c → is_space c ≡ false
unfolding is_space
host_plain c h = ground arith

host_ascii : (c : ℕ) → IsHostChar c → c < 128
host_ascii c h = omega arith

host_lower : (c : ℕ) → IsHostChar c → is_upper c ≡ false
host_lower c h = ground arith

normalize_host_clean :
    (u : Unicode) (s : Text)
    → All IsHostChar s
    → StartsClean is_dot s
    → EndsClean is_dot s
    → normalize_host u s ≡ s
unfolding normalize_host strip
normalize_host_clean u s h starts ends = rw (
  no_colon s h,
  strip_both_none is_space s (All-map _ _ host_plain s h),
  u.lower_ascii s (All-map _ _ host_ascii s h),
  map-lower_char s (All-map _ _ host_lower s h),
  strip_right_clean is_dot s ends,
  strip_left_clean is_dot s starts,
)

some_slug : (s : Text) → IsSlug s → is_empty s ≡ false
some_slug [] h = absurd h.letter
some_slug (c ∷ s) h = refl

long_host : (s domain : Text) → is_empty (app_host s domain) ≡ false
long_host [] domain = refl
long_host (c ∷ s) domain = refl

-- Texts with other numbers of labels are other texts.
other_labels : (s t : Text) → length (split b'.' s) ≢ length (split b'.' t) → text_eq s t ≡ false
other_labels s t n = elim (Bool-cases (text_eq s t)) [
  | inl same ↦ absurd (n (ap (λ x. length (split b'.' x)) ((text_eq_iff s t).0 same)))
  | inr differs ↦ differs
]

slug_no_dot : (s : Text) → All IsSlugChar s → Lacks b'.' s
slug_no_dot [] h = tt
slug_no_dot (c ∷ s) (p, h) = (omega arith, slug_no_dot s h)

ends_after : (s t : Text) → is_empty t ≡ false → EndsClean is_dot t → EndsClean is_dot (s ++ t)
ends_after [] t n h = h
ends_after (c ∷ []) [] n h = cc
ends_after (c ∷ []) (d ∷ t) n h = h
ends_after (c ∷ d ∷ s) t n h = ends_after (d ∷ s) t n h

label_ends : (c : ℕ) (t : Text) → is_empty t ≡ false → EndsClean is_dot t → EndsClean is_dot (c ∷ t)
label_ends c t n h = ends_after (c ∷ []) t n h

some_label : (t : Text) → 2 ≤ length (split b'.' t) → is_empty t ≡ false
unfolding split
some_label [] h = ground arith
some_label (c ∷ t) h = refl

first_same : (v w : Text) (vs ws : List Text) → v ∷ vs ≡ w ∷ ws → v ≡ w
first_same v w vs ws h = cc

letter_starts : (s t : Text) → IsSlug s → StartsClean is_dot (s ++ t)
letter_starts [] t h = absurd h.letter
letter_starts (c ∷ s) t h = let l = h.letter in ground arith

module _ (domain slug : Text) (d : IsDomain domain) (s : IsSlug slug) where
  host_labels : split b'.' (app_host slug domain) ≡ slug ∷ split b'.' domain
  host_labels = split-append b'.' slug domain (slug_no_dot slug s.chars)

  host_chars : All IsHostChar (app_host slug domain)
  host_chars =
      All-append IsHostChar slug (b'.' ∷ domain)
        (All-map IsSlugChar IsHostChar (λ c h. inl h) slug s.chars) (inr refl, d.chars)

  host_clean : (u : Unicode) → normalize_host u (app_host slug domain) ≡ app_host slug domain
  host_clean u =
      normalize_host_clean u (app_host slug domain) host_chars
        (letter_starts slug (b'.' ∷ domain) s)
        (ends_after slug (b'.' ∷ domain) refl
          (label_ends b'.' domain (some_label domain d.labels) d.ends))

  host_count : length (split b'.' (app_host slug domain)) ≡ suc (length (split b'.' domain))
  host_count = ap length host_labels

  not_reserved_host : is_one_of (app_host slug domain) reserved_hosts ≡ false
  unfolding is_one_of split
  not_reserved_host =
      let many = d.labels in
      rw
        (
          other_labels (app_host slug domain) (codes "localhost")
              (λ e. omega (arith, many, host_count, e)),
          other_labels (app_host slug domain) (codes "testserver")
              (λ e. omega (arith, many, host_count, e)),
        )
        refl

  not_www :
      is_one_of slug reserved_labels ≡ false
      → text_eq (app_host slug domain) (codes "www." ++ domain) ≡ false
  unfolding is_one_of
  not_www free = elim (Bool-cases (text_eq (app_host slug domain) (codes "www." ++ domain))) [
    | inl same ↦
        let www : slug ≡ codes "www" =
          first_same slug (codes "www") (split b'.' domain) (split b'.' domain) (
            sym host_labels
            ∙ ap (split b'.') ((text_eq_iff _ _).0 same)
            ∙ split-append b'.' (codes "www") domain (omega arith)) in
        cc (rw www at free)
    | inr differs ↦ differs
  ]

  not_apex : is_one_of slug reserved_labels ≡ false → is_apex domain (app_host slug domain) ≡ false
  not_apex free = ground (
    arith,
    not_www free,
    other_labels (app_host slug domain) domain (λ e. omega (arith, host_count, e)),
  )

  read_label :
      is_one_of slug reserved_labels ≡ false
      → first_label (split b'.' (app_host slug domain)) ≡ some slug
  unfolding strip
  read_label free =
      let enough : leb 2 (length (split b'.' domain)) ≡ true = ground (arith, d.labels) in
      let whole =
        strip_both_none is_space slug (All-map _ _ (λ c h. host_plain c (inl h)) slug s.chars) in
      rw (host_labels, enough, whole, some_slug slug s, free) refl

  filled_host : is_empty (app_host slug domain) ≡ false
  filled_host = long_host slug domain

-- The host of an app's URL leads back to the slug of the app, if the
-- slug has the shape of one and is none of the reserved labels, the domain of the service has at
-- least two labels, in lower case, and the host is not read as an address.
pub slug_from_host-app_host :
    (u : Unicode) (is_ip : Text → Bool) (domain slug : Text)
    → IsDomain domain
    → IsSlug slug
    → is_one_of slug reserved_labels ≡ false
    → is_ip (app_host slug domain) ≡ false
    → slug_from_host u is_ip domain (app_host slug domain) ≡ some slug
unfolding slug_from_host
slug_from_host-app_host u is_ip domain slug d s free address =
    rw
      (
        host_clean domain slug d s u,
        normalize_host_clean u domain d.chars d.starts d.ends,
        filled_host domain slug d s,
        not_reserved_host domain slug d s,
        not_apex domain slug d s free,
        address,
      )
      (read_label domain slug d s free)
