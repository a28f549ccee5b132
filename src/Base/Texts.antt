-- ===== src/Base/Texts.antt =====
-- Python's `str` as a list of code points, with the methods that the program calls on it.
use Prim.Native.Nat.{ℕ, zero, suc, ◌-◌}
use Prim.Native.Char.{code}
use Prim.Native.String.{String}
use mathlib.Core.Path.{◌≡◌, refl}
use mathlib.Core.Logic.{◌↔◌}
use mathlib.Core.Bool.{Bool, true, false, ◌&&◌, ◌||◌}
use mathlib.Core.List.{List, [], ◌∷◌, ◌++◌, map}
use native.Mathlib.Omega.{arith}
use hosting_service.Base.Tests.{◌==◌, leb, if◌then◌else◌}
use hosting_service.Base.Lists.{any, length}

abbrev pub Text : Type 0
Text = List ℕ

-- A literal of the source.
abbrev pub codes : String → Text
codes String.[] = []
codes (String.◌∷◌ c s) = code c ∷ codes s

-- `a == b`
abbrev pub text_eq : Text → Text → Bool
text_eq [] [] = true
text_eq [] (d ∷ t) = false
text_eq (c ∷ s) [] = false
text_eq (c ∷ s) (d ∷ t) = c == d && text_eq s t

pub text_eq_iff : (s t : Text) → (text_eq s t ≡ true) ↔ (s ≡ t)
text_eq_iff [] [] = ground arith
text_eq_iff [] (d ∷ t) = ground arith
text_eq_iff (c ∷ s) [] = ground arith
text_eq_iff (c ∷ s) (d ∷ t) = ground (arith, text_eq_iff s t)

pub text_eq_refl : (s : Text) → text_eq s s ≡ true
text_eq_refl s = (text_eq_iff s s).1 refl

-- `s in {…}`
unfoldable pub is_one_of : Text → List Text → Bool
is_one_of s ws = any (text_eq s) ws

-- `s.startswith(t)`
unfoldable pub starts_with : Text → Text → Bool
starts_with s [] = true
starts_with [] (d ∷ t) = false
starts_with (c ∷ s) (d ∷ t) = c == d && starts_with s t

-- `t in s`
unfoldable pub contains_text : Text → Text → Bool
unfolding starts_with
contains_text t [] = starts_with [] t
contains_text t (c ∷ s) = starts_with (c ∷ s) t || contains_text t s

-- The test of `str.isspace` on one character.
unfoldable pub is_space : ℕ → Bool
is_space c =
    (leb 9 c && leb c 13)
    || (leb 28 c && leb c 32)
    || c == 0x85
    || c == 0xa0
    || c == 0x1680
    || (leb 0x2000 c && leb c 0x200a)
    || c == 0x2028
    || c == 0x2029
    || c == 0x202f
    || c == 0x205f
    || c == 0x3000

-- `s.lstrip(…)` for the characters that pass `p`.
unfoldable pub strip_left : (ℕ → Bool) → Text → Text
strip_left p [] = []
strip_left p (c ∷ s) = let rest = strip_left p s in if p c then rest else c ∷ s

-- A character in front of what `rstrip` leaves.
abbrev pub cons_kept : (ℕ → Bool) → ℕ → Text → Text
cons_kept p c [] = if p c then [] else c ∷ []
cons_kept p c (d ∷ s) = c ∷ d ∷ s

-- `s.rstrip(…)`
unfoldable pub strip_right : (ℕ → Bool) → Text → Text
strip_right p [] = []
strip_right p (c ∷ s) = cons_kept p c (strip_right p s)

-- `s.strip(…)`
unfoldable pub strip_both : (ℕ → Bool) → Text → Text
unfolding strip_left strip_right
strip_both p s = strip_right p (strip_left p s)

-- `s.strip()`
unfoldable pub strip : Text → Text
unfolding strip_both is_space
strip s = strip_both is_space s

abbrev pub is_slash : ℕ → Bool
is_slash c = c == b'/'

-- `s.strip('/')`
unfoldable pub strip_slashes : Text → Text
unfolding strip_both
strip_slashes s = strip_both is_slash s

-- `s.replace(old, new)` for single characters.
abbrev pub replace_char : ℕ → ℕ → Text → Text
replace_char old new s = map (λ c. if c == old then new else c) s

-- `s.replace(old, new)` for an `old` that is not empty: `skip` characters of a match are left to pass.
abbrev pub replace_from : Text → Text → ℕ → Text → Text
replace_from old new skip [] = []
replace_from old new zero (c ∷ s) =
    let matched = new ++ replace_from old new (length old - 1) s in
    let other = c ∷ replace_from old new zero s in
    if starts_with (c ∷ s) old then matched else other
replace_from old new (suc skip) (c ∷ s) = replace_from old new skip s

unfoldable pub replace_text : Text → Text → Text → Text
unfolding starts_with
replace_text old new s = replace_from old new 0 s

-- `sep.join(parts)`
abbrev pub join_with : Text → List Text → Text
join_with sep [] = []
join_with sep (w ∷ []) = w
join_with sep (w ∷ v ∷ ws) = w ++ sep ++ join_with sep (v ∷ ws)
