-- ===== src/Base/Strip.antt =====
-- Laws of `strip`: what is stripped has no such character at its ends, and a text with none at its
-- ends is left as it is.
use Prim.Native.Nat.{ℕ}
use mathlib.Core.Path.{◌≡◌, refl, ap, ◌∙◌}
use mathlib.Core.Bool.{Bool, false}
use mathlib.Core.List.{[], ◌∷◌}
use native.Mathlib.Omega.{arith}
use hosting_service.Base.Lists.{All}
use hosting_service.Base.Texts.{Text, strip_left, strip_right, strip_both, cons_kept}

module _ (p : ℕ → Bool) where
  abbrev pub StartsClean : Text → Type 0
  StartsClean [] = Unit
  StartsClean (c ∷ s) = p c ≡ false

  abbrev pub EndsClean : Text → Type 0
  EndsClean [] = Unit
  EndsClean (c ∷ []) = p c ≡ false
  EndsClean (c ∷ d ∷ s) = EndsClean (d ∷ s)

  pub strip_left-StartsClean : (s : Text) → StartsClean (strip_left p s)
  unfolding strip_left
  strip_left-StartsClean [] = tt
  strip_left-StartsClean (c ∷ s) = ground (arith, strip_left-StartsClean s)

  cons_kept-EndsClean : (c : ℕ) (s : Text) → EndsClean s → EndsClean (cons_kept p c s)
  cons_kept-EndsClean c [] h = ground arith
  cons_kept-EndsClean c (d ∷ s) h = h

  pub strip_right-EndsClean : (s : Text) → EndsClean (strip_right p s)
  unfolding strip_right
  strip_right-EndsClean [] = tt
  strip_right-EndsClean (c ∷ s) = cons_kept-EndsClean c (strip_right p s) (strip_right-EndsClean s)

  cons_kept-StartsClean : (c : ℕ) (s : Text) → p c ≡ false → StartsClean (cons_kept p c s)
  cons_kept-StartsClean c [] h = ground arith
  cons_kept-StartsClean c (d ∷ s) h = h

  strip_right-StartsClean : (s : Text) → StartsClean s → StartsClean (strip_right p s)
  unfolding strip_right
  strip_right-StartsClean [] h = tt
  strip_right-StartsClean (c ∷ s) h = cons_kept-StartsClean c (strip_right p s) h

  pub strip_both-StartsClean : (s : Text) → StartsClean (strip_both p s)
  unfolding strip_both
  strip_both-StartsClean s = strip_right-StartsClean (strip_left p s) (strip_left-StartsClean s)

  pub strip_both-EndsClean : (s : Text) → EndsClean (strip_both p s)
  unfolding strip_both
  strip_both-EndsClean s = strip_right-EndsClean (strip_left p s)

  pub strip_left_clean : (s : Text) → StartsClean s → strip_left p s ≡ s
  unfolding strip_left
  strip_left_clean [] h = refl
  strip_left_clean (c ∷ s) h = rw h

  pub strip_right_clean : (s : Text) → EndsClean s → strip_right p s ≡ s
  unfolding strip_right
  strip_right_clean [] h = refl
  strip_right_clean (c ∷ []) h = rw h
  strip_right_clean (c ∷ d ∷ s) h = ap (cons_kept p c) (strip_right_clean (d ∷ s) h)

  -- A text with clean ends is left as it is.
  pub strip_both_clean : (s : Text) → StartsClean s → EndsClean s → strip_both p s ≡ s
  unfolding strip_both
  strip_both_clean s h k = ap (strip_right p) (strip_left_clean s h) ∙ strip_right_clean s k

  pub EndsClean-All : (s : Text) → All (λ c. p c ≡ false) s → EndsClean s
  EndsClean-All [] h = tt
  EndsClean-All (c ∷ []) (h, _) = h
  EndsClean-All (c ∷ d ∷ s) (_, h) = EndsClean-All (d ∷ s) h

  pub StartsClean-All : (s : Text) → All (λ c. p c ≡ false) s → StartsClean s
  StartsClean-All [] h = tt
  StartsClean-All (c ∷ s) (h, _) = h

  -- So is a text with no such character at all.
  pub strip_both_none : (s : Text) → All (λ c. p c ≡ false) s → strip_both p s ≡ s
  strip_both_none s h = strip_both_clean s (StartsClean-All s h) (EndsClean-All s h)
