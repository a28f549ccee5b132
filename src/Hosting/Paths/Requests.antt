-- ===== src/Hosting/Paths/Requests.antt =====
-- `validate_serve_path`: the paths that requests may name.
use hosting_service.Base.{
  split-All, ℕ, ◌≡◌, ◌≢◌, refl, ◌⊎◌, inl, inr, false, Option, none, some, List, [], ◌∷◌, arith,
  Text, text_eq, text_eq_iff, contains_text, strip_both, is_slash, strip_slashes, replace_char,
  split, join, push_head, Lacks, split-ne-nil, join-split, StartsClean, EndsClean, strip_both_clean,
  any, keep, is_empty, All, All-map, Bool-cases, ◌==◌, ok,
}
use hosting_service.Hosting.Paths.{
  dot, dotdot, windows_absolute, is_unsafe_part, slashed, normalize_relative_path, is_percent,
  unquote, is_dotdot_segment, raw_path_has_traversal, encoded_dotdot, dots_here,
  dots_after_boundary, validate_serve_path, found_path,
}
use hosting_service.Hosting.Paths.Normal.{
  IsPlain, is_kept, joined, normalize_relative_path-eq-slashed_form,
  normalize_relative_path-IsPlain,
}

found_path-eq-ok : (o : Option Text) (r : Text) → found_path o ≡ ok r → o ≡ some r
found_path-eq-ok none r h = cc
found_path-eq-ok (some s) r h = ground arith

serve_cases :
    (raw r : Text)
    → validate_serve_path raw ≡ ok r
    → (r ≡ []) ⊎ (normalize_relative_path (some (unquote raw)) ≡ some r)
unfolding validate_serve_path
serve_cases raw r h =
    ground (arith, found_path-eq-ok (normalize_relative_path (some (unquote raw))) r)

-- Whatever the request path, an accepted path is the site's root or a chain of plain names: after
-- decoding, none of its parts is empty, "." or "..".
pub validate_serve_path-IsPlain :
    (raw r : Text) → validate_serve_path raw ≡ ok r → (r ≡ []) ⊎ All IsPlain (split b'/' r)
validate_serve_path-IsPlain raw r h = elim (serve_cases raw r h) [
  | inl root ↦ inl root
  | inr found ↦ inr (normalize_relative_path-IsPlain (unquote raw) r found)
]

-- The texts that are their own normal form.
abbrev NonemptyTail : List Text → Type 0
NonemptyTail [] = Unit
NonemptyTail (w ∷ ws) = All (λ v. v ≢ []) ws

push_head-NonemptyTail : (c : ℕ) (ws : List Text) → NonemptyTail (push_head c ws) → NonemptyTail ws
push_head-NonemptyTail c [] h = tt
push_head-NonemptyTail c (w ∷ ws) h = h

All-NonemptyTail : (ws : List Text) → All (λ v. v ≢ []) ws → NonemptyTail ws
All-NonemptyTail [] h = tt
All-NonemptyTail (w ∷ ws) (p, h) = h

split-EndsClean : (s : Text) → NonemptyTail (split b'/' s) → EndsClean is_slash s
unfolding split
split-EndsClean [] h = tt
split-EndsClean (c ∷ []) h = elim (Bool-cases (c == b'/')) [
  | inl slash ↦ absurd ((rw slash at h).0 refl)
  | inr other ↦ other
]
split-EndsClean (c ∷ d ∷ s) h = elim (Bool-cases (c == b'/')) [
  | inl slash ↦ split-EndsClean (d ∷ s) (All-NonemptyTail (split b'/' (d ∷ s)) (rw slash at h))
  | inr other ↦
      split-EndsClean (d ∷ s) (push_head-NonemptyTail c (split b'/' (d ∷ s)) (rw other at h))
]

split-StartsClean : (s : Text) → All IsPlain (split b'/' s) → StartsClean is_slash s
unfolding split
split-StartsClean [] h = tt
split-StartsClean (c ∷ s) h = elim (Bool-cases (c == b'/')) [
  | inl slash ↦ absurd ((rw slash at h).0.some_name refl)
  | inr other ↦ other
]

pub IsPlain-EndsClean : (s : Text) → All IsPlain (split b'/' s) → EndsClean is_slash s
IsPlain-EndsClean s plain = split-EndsClean s (
    All-NonemptyTail (split b'/' s)
      (All-map IsPlain (λ v. v ≢ []) (λ v p. p.some_name) (split b'/' s) plain))

-- A text without backslashes, whose parts are plain, has nothing to replace or to strip.
replace_none : (s : Text) → Lacks b'\\' s → replace_char b'\\' b'/' s ≡ s
replace_none [] h = refl
replace_none (c ∷ s) (n, h) = ground (arith, replace_none s h)

clean_slashes : (s : Text) → All IsPlain (split b'/' s) → strip_both is_slash s ≡ s
clean_slashes s plain = strip_both_clean is_slash s (split-StartsClean s plain) (
    split-EndsClean s (
      All-NonemptyTail (split b'/' s)
        (All-map IsPlain (λ v. v ≢ []) (λ v p. p.some_name) (split b'/' s) plain)))

slashed_plain : (s : Text) → Lacks b'\\' s → All IsPlain (split b'/' s) → slashed s ≡ s
unfolding slashed strip_slashes
slashed_plain s lacks plain = rw (replace_none s lacks) (clean_slashes s plain)

keep_plain : (ws : List Text) → All IsPlain ws → keep is_kept ws ≡ ws
keep_plain [] h = refl
keep_plain (w ∷ ws) (p, h) = elim (Bool-cases (text_eq w dot)) [
  | inl here ↦ absurd (p.not_here ((text_eq_iff w dot).0 here))
  | inr away ↦ rw (away, keep_plain ws h)
]

fine_plain : (ws : List Text) → All IsPlain ws → any is_unsafe_part ws ≡ false
fine_plain [] h = refl
fine_plain (w ∷ ws) (p, h) =
    ground (arith, fine_plain ws h, text_eq_iff w [], text_eq_iff w dotdot, p.some_name, p.not_up)

joined-split : (ws : List Text) → ws ≢ [] → joined ws ≡ some (join b'/' ws)
joined-split [] h = absurd (h refl)
joined-split (w ∷ ws) h = refl

-- A chain of plain names, without a drive letter or a backslash, is its own normal form.
pub normalize_relative_path_fixed :
    (s : Text)
    → All IsPlain (split b'/' s)
    → windows_absolute s ≡ false
    → Lacks b'\\' s
    → normalize_relative_path (some s) ≡ some s
normalize_relative_path_fixed s plain drive lacks = rw (
  normalize_relative_path-eq-slashed_form s,
  slashed_plain s lacks plain,
  drive,
  fine_plain (split b'/' s) plain,
  keep_plain (split b'/' s) plain,
  joined-split (split b'/' s) (split-ne-nil b'/' s),
  join-split b'/' s,
)

-- The requests that pass the traversal test: no percent sign, and no two dots in a row.
abbrev NoPercent : Text → Type 0
NoPercent s = All (λ c. is_percent c ≡ false) s

abbrev pub NoDots : Text → Type 0
NoDots s = contains_text dotdot s ≡ false

any_percent : (s : Text) → NoPercent s → any is_percent s ≡ false
any_percent [] h = refl
any_percent (c ∷ s) (p, h) = rw (p, any_percent s h)

unquote_plain : (s : Text) → NoPercent s → unquote s ≡ s
unfolding unquote
unquote_plain s h = rw (any_percent s h)

NoDots-tail : (c : ℕ) (s : Text) → NoDots (c ∷ s) → NoDots s
unfolding contains_text
NoDots-tail c s h = ground arith

-- The first character decides with the second, or begins no pair.
NoDots-cons : (c d : ℕ) (s w : Text) → NoDots (c ∷ d ∷ s) → NoDots (d ∷ w) → NoDots (c ∷ d ∷ w)
unfolding contains_text
NoDots-cons c d s w h k = ground arith

NoDots-single : (c : ℕ) → NoDots (c ∷ [])
unfolding contains_text
NoDots-single c = ground arith

NoDots-cons_word :
    (c d : ℕ) (s : Text) (ws : List Text)
    → NoDots (c ∷ d ∷ s)
    → All NoDots (push_head d ws)
    → All NoDots (push_head c (push_head d ws))
NoDots-cons_word c d s [] h (k, _) = (NoDots-cons c d s [] h k, tt)
NoDots-cons_word c d s (w ∷ ws) h (k, ks) = (NoDots-cons c d s w h k, ks)

NoDots-push_head :
    (sep c d : ℕ) (s : Text)
    → NoDots (c ∷ d ∷ s)
    → All NoDots (split sep (d ∷ s))
    → All NoDots (push_head c (split sep (d ∷ s)))
unfolding split
NoDots-push_head sep c d s h k = elim (Bool-cases (d == sep)) [
  | inl here ↦ rw here (NoDots-single c, (rw here at k).1)
  | inr away ↦ rw away (NoDots-cons_word c d s (split sep s) h (rw away at k))
]

split-NoDots : (sep : ℕ) (s : Text) → NoDots s → All NoDots (split sep s)
unfolding split contains_text
split-NoDots sep [] h = (h, tt)
split-NoDots sep (c ∷ []) h = elim (Bool-cases (c == sep)) [
  | inl here ↦ rw here (refl, (refl, tt))
  | inr away ↦ rw away (NoDots-single c, tt)
]
split-NoDots sep (c ∷ d ∷ s) h =
    let ih = split-NoDots sep (d ∷ s) (NoDots-tail c (d ∷ s) h) in
    elim (Bool-cases (c == sep)) [
      | inl here ↦ rw here (refl, ih)
      | inr away ↦ rw away (NoDots-push_head sep c d s h ih)
    ]

dots_here_none : (s : Text) → NoPercent s → NoDots s → dots_here s ≡ false
unfolding dots_here contains_text
dots_here_none [] p h = refl
dots_here_none (c ∷ []) p h = ground (arith, p.0)
dots_here_none (c ∷ d ∷ s) p h = ground (arith, p.0)

dots_after_boundary_none : (s : Text) → NoPercent s → NoDots s → dots_after_boundary s ≡ false
unfolding dots_after_boundary
dots_after_boundary_none [] p h = refl
dots_after_boundary_none (c ∷ s) (p, q) h =
    let h' = NoDots-tail c s h in
    ground (arith, dots_here_none s q h', dots_after_boundary_none s q h')

dotted : (w : Text) → NoDots w → text_eq w dotdot ≡ false
dotted w h = elim (Bool-cases (text_eq w dotdot)) [
  | inl same ↦
      let e = (text_eq_iff w dotdot).0 same in
      let t : contains_text dotdot dotdot ≡ false = rw e at h in unfold contains_text in cc t
  | inr differs ↦ differs
]

no_dotdot_segment :
    (ws : List Text) → All NoPercent ws → All NoDots ws → any is_dotdot_segment ws ≡ false
no_dotdot_segment [] p h = refl
no_dotdot_segment (w ∷ ws) (p, ps) (h, hs) =
    ground (arith, no_dotdot_segment ws ps hs, unquote_plain w p, dotted w h)

no_encoded : (s : Text) → NoPercent s → NoDots s → encoded_dotdot s ≡ false
unfolding encoded_dotdot
no_encoded s p h = rw (dots_here_none s p h, dots_after_boundary_none s p h)

nonempty_plain : (s : Text) → All IsPlain (split b'/' s) → is_empty s ≡ false
unfolding split
nonempty_plain [] h = absurd (h.0.some_name refl)
nonempty_plain (c ∷ s) h = refl

no_traversal :
    (s : Text) → NoPercent s → NoDots s → Lacks b'\\' s → raw_path_has_traversal s ≡ false
unfolding raw_path_has_traversal
no_traversal s p h k =
    let parts = split b'/' s in
    let quiet = no_dotdot_segment parts (split-All _ b'/' s p) (split-NoDots b'/' s h) in
    rw (h, replace_none s k) (rw (no_encoded s p h, quiet))

-- A chain of plain names without percent signs, two dots in a row, backslashes or a drive letter is
-- served under its own name: `validate_serve_path` accepts it and leaves it as it is.
pub validate_serve_path_fixed :
    (s : Text)
    → All IsPlain (split b'/' s)
    → All (λ c. is_percent c ≡ false) s
    → contains_text dotdot s ≡ false
    → Lacks b'\\' s
    → windows_absolute s ≡ false
    → validate_serve_path s ≡ ok s
unfolding validate_serve_path strip_slashes
validate_serve_path_fixed s plain percent dots lacks drive = rw (
  clean_slashes s plain,
  nonempty_plain s plain,
  no_traversal s percent dots lacks,
  unquote_plain s percent,
  normalize_relative_path_fixed s plain drive lacks,
)
