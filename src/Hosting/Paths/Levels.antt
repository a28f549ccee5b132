-- ===== src/Hosting/Paths/Levels.antt =====
-- `normalize_relative_path` of apps/hosting/paths.py against the levels of a path.
use hosting_service.Base.{
  ℕ, ◌≡◌, ◌≢◌, refl, sym, ap, subst, ◌∙◌, ◌⊎◌, inl, inr, Bool, true, false, not, ◌&&◌, ◌||◌, Option,
  none, some, List, [], ◌∷◌, arith, Text, codes, text_eq, is_slash, strip_left, strip_right,
  strip_both, strip_slashes, cons_kept, replace_char, split, push_head, split-ne-nil, any, keep,
  is_empty, Bool-cases, if◌then◌else◌, ◌==◌, leb, starts_with,
}
use hosting_service.Hosting.Paths.{windows_absolute, slashed, normalize_relative_path}
use hosting_service.Hosting.Paths.Normal.{joined, normalize_relative_path-eq-slashed_form}

-- A drive and its root: a letter (as a pattern that ignores the case reads [A-Z]), a colon, and a
-- slash of either kind.
abbrev pub is_letter : ℕ → Bool
is_letter c =
    (leb 0x41 c && leb c 0x5a)
    || (leb 0x61 c && leb c 0x7a)
    || any (λ d. c == d) (0x130 ∷ 0x131 ∷ 0x17f ∷ 0x212a ∷ [])

abbrev pub has_drive : Text → Bool
unfolding starts_with
has_drive [] = false
has_drive (c ∷ s) = is_letter c && (starts_with s (codes ":/") || starts_with s (codes ":\\"))

-- The texts between the slashes of either kind.
unfoldable pub levels : Text → List Text
levels [] = [] ∷ []
levels (c ∷ s) =
    let rest = levels s in if c == 0x2f || c == 0x5c then [] ∷ rest else push_head c rest

-- Without the empty ones at both ends.
unfoldable pub drop_first : List Text → List Text
drop_first [] = []
drop_first ([] ∷ ws) = drop_first ws
drop_first ((c ∷ w) ∷ ws) = (c ∷ w) ∷ ws

abbrev pub cons_level : Text → List Text → List Text
cons_level [] [] = []
cons_level (c ∷ w) [] = (c ∷ w) ∷ []
cons_level w (v ∷ ws) = w ∷ v ∷ ws

unfoldable pub drop_last : List Text → List Text
drop_last [] = []
drop_last (w ∷ ws) = cons_level w (drop_last ws)

abbrev pub inner_levels : Text → List Text
inner_levels path = drop_last (drop_first (levels path))

abbrev pub is_refused : Text → Bool
is_refused part = text_eq part [] || text_eq part (codes "..")

abbrev pub is_here : Text → Bool
is_here part = text_eq part (codes ".")

-- The normal form of a path.
abbrev pub normal_form : Text → Option Text
normal_form path =
    if has_drive path || any is_refused (inner_levels path)
    then none
    else joined (keep (λ part. not (is_here part)) (inner_levels path))

drive-eq : (path : Text) → windows_absolute path ≡ has_drive path
unfolding windows_absolute starts_with
drive-eq [] = refl
drive-eq (c ∷ []) = ground arith
drive-eq (c ∷ d ∷ []) = ground arith
drive-eq (c ∷ d ∷ e ∷ s) = ground arith

levels-split : (s : Text) → split b'/' (replace_char b'\\' b'/' s) ≡ levels s
unfolding split levels
levels-split [] = refl
levels-split (c ∷ s) = ground (arith, levels-split s)

push-first : (c : ℕ) (ws : List Text) → ws ≢ [] → drop_first (push_head c ws) ≡ push_head c ws
unfolding drop_first
push-first c [] h = absurd (h refl)
push-first c (w ∷ ws) h = refl

split-other :
    (c : ℕ) (s : Text) → (c == b'/') ≡ false → split b'/' (c ∷ s) ≡ push_head c (split b'/' s)
unfolding split
split-other c s other = rw other refl

strip_left-other : (c : ℕ) (s : Text) → (c == b'/') ≡ false → strip_left is_slash (c ∷ s) ≡ c ∷ s
unfolding strip_left
strip_left-other c s other = rw other refl

-- Stripping slashes on the left drops the empty levels there.
first-split :
    (s : Text)
    → ((strip_left is_slash s ≡ []) × (drop_first (split b'/' s) ≡ []))
      ⊎ (drop_first (split b'/' s) ≡ split b'/' (strip_left is_slash s))
unfolding split strip_left drop_first
first-split [] = inl (refl, refl)
first-split (c ∷ s) = elim (Bool-cases (c == b'/')) [
  | inl slash ↦ rw slash (first-split s)
  | inr other ↦ inr (
      ap drop_first (split-other c s other)
      ∙ push-first c (split b'/' s) (split-ne-nil b'/' s)
      ∙ sym (split-other c s other)
      ∙ sym (ap (split b'/') (strip_left-other c s other)))
]

last-cons : (w : Text) (ws : List Text) → ws ≢ [] → cons_level w ws ≡ w ∷ ws
last-cons w [] h = absurd (h refl)
last-cons w (v ∷ ws) h = refl

push_head-cons_level :
    (c : ℕ) (w : Text) (vs : List Text) → cons_level (c ∷ w) vs ≡ push_head c (cons_level w vs)
push_head-cons_level c [] [] = refl
push_head-cons_level c (d ∷ w) [] = refl
push_head-cons_level c [] (v ∷ vs) = refl
push_head-cons_level c (d ∷ w) (v ∷ vs) = refl

push-last :
    (c : ℕ) (ws : List Text) → ws ≢ [] → drop_last (push_head c ws) ≡ push_head c (drop_last ws)
unfolding drop_last
push-last c [] h = absurd (h refl)
push-last c (w ∷ ws) h = push_head-cons_level c w (drop_last ws)

-- … and on the right.
abbrev IsTrimmed : Text → List Text → Type 0
IsTrimmed s ws = ((s ≡ []) × (ws ≡ [])) ⊎ ((is_empty s ≡ false) × (ws ≡ split b'/' s))

cons-kept : (p : ℕ → Bool) (c : ℕ) (s : Text) → is_empty s ≡ false → cons_kept p c s ≡ c ∷ s
cons-kept p c [] h = cc
cons-kept p c (d ∷ s) h = refl

slash-IsTrimmed :
    (c : ℕ) (s : Text) (ws : List Text)
    → (c == b'/') ≡ true
    → IsTrimmed s ws
    → IsTrimmed (cons_kept is_slash c s) (cons_level [] ws)
unfolding split
slash-IsTrimmed c s ws slash (inl (nothing, none_left)) =
    inl (rw (nothing, slash) refl, ap (cons_level []) none_left)
slash-IsTrimmed c s ws slash (inr (some_left, same)) =
    rw (cons-kept is_slash c s some_left, slash)
      (inr (refl, ap (cons_level []) same ∙ last-cons [] (split b'/' s) (split-ne-nil b'/' s)))

other-IsTrimmed :
    (c : ℕ) (s : Text) (ws : List Text)
    → (c == b'/') ≡ false
    → IsTrimmed s ws
    → IsTrimmed (cons_kept is_slash c s) (push_head c ws)
unfolding split
other-IsTrimmed c s ws other (inl (nothing, none_left)) =
    rw (nothing, none_left, other) (inr (refl, rw other refl))
other-IsTrimmed c s ws other (inr (some_left, same)) =
    rw (cons-kept is_slash c s some_left, other) (inr (refl, ap (push_head c) same))

last-split : (s : Text) → IsTrimmed (strip_right is_slash s) (drop_last (split b'/' s))
unfolding split strip_right drop_last
last-split [] = inl (refl, refl)
last-split (c ∷ s) = elim (Bool-cases (c == b'/')) [
  | inl slash ↦
      rw slash
        (slash-IsTrimmed c (strip_right is_slash s) (drop_last (split b'/' s)) slash (last-split s))
  | inr other ↦
      subst (IsTrimmed (cons_kept is_slash c (strip_right is_slash s)))
        (sym (push-last c (split b'/' s) (split-ne-nil b'/' s))
          ∙ sym (ap drop_last (split-other c s other)))
        (other-IsTrimmed c (strip_right is_slash s) (drop_last (split b'/' s)) other (last-split s))
]

inner-split : (path : Text) → IsTrimmed (slashed path) (inner_levels path)
unfolding slashed strip_slashes strip_both strip_right drop_last
inner-split path =
    let s = replace_char b'\\' b'/' path in
    subst
      (λ ws. IsTrimmed (strip_right is_slash (strip_left is_slash s)) (drop_last (drop_first ws)))
      (levels-split path)
      (elim (first-split s) [
        | inl (nothing, none_left) ↦ inl (ap (strip_right is_slash) nothing, ap drop_last none_left)
        | inr same ↦
            subst (λ ws. IsTrimmed (strip_right is_slash (strip_left is_slash s)) (drop_last ws))
              (sym same) (last-split (strip_left is_slash s))
      ])

-- `normalize_relative_path` computes the normal form of a path: the names between its slashes, of
-- either kind, without the empty ones at its two ends and without ".". There is no result if the
-- path begins with a letter, a colon and a slash, if one of the other names is empty or "..", or if
-- no name is left. So a slash in front of a path, or a drive without a slash, is not refused.
pub normalize_relative_path-eq-normal_form :
    (path : Text) → normalize_relative_path (some path) ≡ normal_form path
unfolding split
normalize_relative_path-eq-normal_form path =
    normalize_relative_path-eq-slashed_form path ∙ elim (inner-split path) [
      | inl (nothing, none_left) ↦ rw (nothing, none_left, drive-eq path) (ground arith)
      | inr (some_left, same) ↦ rw (same, drive-eq path) refl
    ]
