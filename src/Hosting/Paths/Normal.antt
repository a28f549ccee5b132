-- ===== src/Hosting/Paths/Normal.antt =====
-- `normalize_relative_path` of apps/hosting/paths.py, and normal forms of paths.
use hosting_service.Base.{
  ◌≡◌, ◌≢◌, refl, sym, ap, ◌∙◌, inl, inr, Bool, true, false, not, ◌||◌, Option, none, some, List,
  [], ◌∷◌, ◌++◌, append-nil, append_assoc, arith, Text, codes, text_eq, text_eq_iff, starts_with,
  is_slash, strip_slashes, replace_char, split, join, Lacks, split-Lacks, split_part, split-join,
  StartsClean, strip_both-StartsClean, any, keep, is_empty, All, All-map, Bool-cases, if◌then◌else◌,
}
use hosting_service.Hosting.Paths.{
  dot, dotdot, windows_absolute, components, push_component, initial_slashes, or_dot, normpath,
  is_unsafe_part, slashed, normalize_relative_path,
}
use mathlib.Core.List.{reverse, reverse-cons}

-- Removing the "." parts.
abbrev pub is_kept : Text → Bool
is_kept part = not (text_eq part dot)

-- A part that names a file or a directory below the one that it is joined to.
pub record IsPlain (part : Text) : Type 0 where
  pub some_name : part ≢ []
  pub not_here : part ≢ dot
  pub not_up : part ≢ dotdot
  pub one_level : Lacks b'/' part

-- The parts that are left, as a path.
abbrev pub joined : List Text → Option Text
joined [] = none
joined (w ∷ ws) = some (join b'/' (w ∷ ws))

abbrev pub slashed_form : Text → Option Text
slashed_form path =
    let parts = split b'/' (slashed path) in
    if windows_absolute path || any is_unsafe_part parts then none else joined (keep is_kept parts)

-- A list of parts without "" and "..".
abbrev IsFine : List Text → Type 0
IsFine ws = All (λ w. is_unsafe_part w ≡ false) ws

any-IsFine : (ws : List Text) → any is_unsafe_part ws ≡ false → IsFine ws
any-IsFine [] h = tt
any-IsFine (w ∷ ws) h = (ground arith, any-IsFine ws (ground arith))

fine_not_up : (w : Text) → is_unsafe_part w ≡ false → text_eq w dotdot ≡ false
fine_not_up w h = ground arith

-- `normpath` keeps such parts but ".".
push-IsFine :
    (stack : List Text) (w : Text)
    → is_unsafe_part w ≡ false
    → push_component false stack w ≡ (if text_eq w dot then stack else w ∷ stack)
unfolding push_component
push-IsFine stack w h = ground arith

components-IsFine :
    (ws stack : List Text)
    → IsFine ws
    → reverse (components false stack ws) ≡ reverse stack ++ keep is_kept ws
unfolding components
components-IsFine [] stack h = sym (append-nil _)
components-IsFine (w ∷ ws) stack (p, h) = elim (Bool-cases (text_eq w dot)) [
  | inl here ↦ rw (push-IsFine stack w p, here) (components-IsFine ws stack h)
  | inr away ↦
      rw (push-IsFine stack w p, away)
        (components-IsFine ws (w ∷ stack) h ∙ simp (reverse-cons, append_assoc))
]

-- A text that does not begin with a slash is relative.
relative : (s : Text) → StartsClean is_slash s → initial_slashes s ≡ []
unfolding initial_slashes
relative [] h = refl
relative (c ∷ s) h = ground arith

normpath-IsFine :
    (s : Text)
    → StartsClean is_slash s
    → IsFine (split b'/' s)
    → normpath s ≡ or_dot (join b'/' (keep is_kept (split b'/' s)))
unfolding normpath
normpath-IsFine s h k =
    rw (relative s h) (ap (λ ws. or_dot (join b'/' ws)) (components-IsFine (split b'/' s) [] k))

slashed-StartsClean : (path : Text) → StartsClean is_slash (slashed path)
unfolding slashed strip_slashes
slashed-StartsClean path = strip_both-StartsClean is_slash (replace_char b'\\' b'/' path)

-- The parts that are kept name something, one level each.
keep-IsPlain : (ws : List Text) → IsFine ws → All (Lacks b'/') ws → All IsPlain (keep is_kept ws)
keep-IsPlain [] h k = tt
keep-IsPlain (w ∷ ws) (p, h) (q, k) = elim (Bool-cases (text_eq w dot)) [
  | inl here ↦ rw here (keep-IsPlain ws h k)
  | inr away ↦ rw away (
    record {
      some_name = λ e. cc (p, (text_eq_iff w []).1 e);
      not_here = λ e. cc (away, (text_eq_iff w dot).1 e);
      not_up = λ e. cc ((text_eq_iff w dotdot).1 e, fine_not_up w p);
      one_level = q;
    },
    keep-IsPlain ws h k,
  )
]

first_part : (v w : Text) (ws : List Text) → v ∷ [] ≡ w ∷ ws → v ≡ w
first_part v w ws h = cc

-- The checks after `normpath`.
abbrev checked : Text → Option Text
checked normalized =
    if is_empty normalized || text_eq normalized dot
    then none
    else if starts_with normalized (codes "../") || text_eq normalized dotdot
    then none
    else if any (text_eq dotdot) (split b'/' normalized)
    then none
    else some normalized

-- What the last guards look for is not there.
module _ (w : Text) (ws : List Text) (plain : All IsPlain (w ∷ ws)) where
  levels : split b'/' (join b'/' (w ∷ ws)) ≡ w ∷ ws
  levels = split-join b'/' w ws (All-map IsPlain (Lacks b'/') (λ v p. p.one_level) (w ∷ ws) plain)

  join-ne : (v : Text) → v ≢ w → Lacks b'/' v → text_eq (join b'/' (w ∷ ws)) v ≡ false
  join-ne v other single = elim (Bool-cases (text_eq (join b'/' (w ∷ ws)) v)) [
    | inl same ↦
        let e = ap (split b'/') ((text_eq_iff _ v).0 same) in
        absurd (other (first_part v w ws (sym (split_part b'/' v single) ∙ sym e ∙ levels)))
    | inr differs ↦ differs
  ]

no_dotdot : (ws : List Text) → All IsPlain ws → any (text_eq dotdot) ws ≡ false
no_dotdot [] h = refl
no_dotdot (w ∷ ws) (p, h) = elim (Bool-cases (text_eq dotdot w)) [
  | inl same ↦ absurd (p.not_up (sym ((text_eq_iff dotdot w).0 same)))
  | inr differs ↦ rw (differs, no_dotdot ws h)
]

-- A text that begins with "../" has the part "..".
dotdot_prefix :
    (s : Text) → starts_with s (codes "../") ≡ true → any (text_eq dotdot) (split b'/' s) ≡ true
unfolding starts_with split
dotdot_prefix [] h = cc
dotdot_prefix (a ∷ []) h = ground arith
dotdot_prefix (a ∷ b ∷ []) h = ground arith
dotdot_prefix (a ∷ b ∷ c ∷ s) h = ground arith

-- The guards after `normpath` pass for any join of plain parts.
is_empty-text_eq : (s : Text) → is_empty s ≡ text_eq s []
is_empty-text_eq [] = refl
is_empty-text_eq (c ∷ s) = refl

join-ne_nil :
    (w : Text) (ws : List Text) → All IsPlain (w ∷ ws) → is_empty (join b'/' (w ∷ ws)) ≡ false
join-ne_nil w ws h =
    is_empty-text_eq (join b'/' (w ∷ ws)) ∙ join-ne w ws h [] (λ e. h.0.some_name (sym e)) tt

last_guards :
    (w : Text) (ws : List Text)
    → All IsPlain (w ∷ ws)
    → checked (join b'/' (w ∷ ws)) ≡ some (join b'/' (w ∷ ws))
last_guards w ws plain =
    let s = join b'/' (w ∷ ws) in
    ground (
      arith,
      join-ne_nil w ws plain,
      join-ne w ws plain dot (λ e. plain.0.not_here (sym e)) (omega arith),
      join-ne w ws plain dotdot (λ e. plain.0.not_up (sym e)) (omega arith),
      dotdot_prefix s,
      ap (any (text_eq dotdot)) (levels w ws plain) ∙ no_dotdot (w ∷ ws) plain,
    )

or_dot_lem : (s : Text) → is_empty s ≡ false → or_dot s ≡ s
or_dot_lem [] h = cc
or_dot_lem (c ∷ s) h = refl

checked-or_dot : (ws : List Text) → All IsPlain ws → checked (or_dot (join b'/' ws)) ≡ joined ws
unfolding join split
checked-or_dot [] h = refl
checked-or_dot (w ∷ ws) h =
    rw (or_dot_lem (join b'/' (w ∷ ws)) (join-ne_nil w ws h)) (last_guards w ws h)

unsafe_empty : (s : Text) → any is_unsafe_part (split b'/' s) ≡ false → is_empty s ≡ false
unfolding split
unsafe_empty [] h = cc
unsafe_empty (c ∷ s) h = refl

checked-normpath :
    (s : Text)
    → StartsClean is_slash s
    → any is_unsafe_part (split b'/' s) ≡ false
    → checked (normpath s) ≡ joined (keep is_kept (split b'/' s))
checked-normpath s h k =
    let fine = any-IsFine (split b'/' s) k in
    rw (normpath-IsFine s h fine) (
      checked-or_dot (keep is_kept (split b'/' s))
        (keep-IsPlain (split b'/' s) fine (split-Lacks b'/' s)))

joined-IsPlain :
    (ws : List Text) (r : Text) → All IsPlain ws → joined ws ≡ some r → All IsPlain (split b'/' r)
joined-IsPlain [] r h e = cc
joined-IsPlain (w ∷ ws) r h e =
    let same : join b'/' (w ∷ ws) ≡ r = ground arith in rw (← same) (rw (levels w ws h) h)

-- What the guards and `normpath` compute, on the slashed path.
pub normalize_relative_path-eq-slashed_form :
    (path : Text) → normalize_relative_path (some path) ≡ slashed_form path
unfolding normalize_relative_path
normalize_relative_path-eq-slashed_form path =
    ground (
      arith,
      unsafe_empty (slashed path),
      checked-normpath (slashed path) (slashed-StartsClean path),
    )

slashed_form_parts :
    (path r : Text)
    → slashed_form path ≡ some r
    → (any is_unsafe_part (split b'/' (slashed path)) ≡ false)
      × (joined (keep is_kept (split b'/' (slashed path))) ≡ some r)
slashed_form_parts path r h = ground arith

slashed_form-IsPlain : (path r : Text) → slashed_form path ≡ some r → All IsPlain (split b'/' r)
slashed_form-IsPlain path r h =
    let parts = split b'/' (slashed path) in
    let (fine, e) = slashed_form_parts path r h in
    joined-IsPlain (keep is_kept parts) r
      (keep-IsPlain parts (any-IsFine parts fine) (split-Lacks b'/' (slashed path))) e

-- Every result is a chain of plain names: no part of it, between slashes, is empty, "." or "..".
pub normalize_relative_path-IsPlain :
    (path r : Text) → normalize_relative_path (some path) ≡ some r → All IsPlain (split b'/' r)
normalize_relative_path-IsPlain path r h =
    slashed_form-IsPlain path r (sym (normalize_relative_path-eq-slashed_form path) ∙ h)
