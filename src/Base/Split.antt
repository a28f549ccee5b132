-- ===== src/Base/Split.antt =====
-- `str.split` at one character and `str.join`, with their round trips.
use Prim.Native.Nat.{ℕ}
use mathlib.Core.Path.{◌≡◌, refl, ap, ◌∙◌}
use mathlib.Core.Logic.{◌≢◌}
use mathlib.Core.List.{List, [], ◌∷◌, ◌++◌}
use native.Mathlib.Omega.{arith}
use hosting_service.Base.Tests.{◌==◌, if◌then◌else◌}
use hosting_service.Base.Lists.{All}
use hosting_service.Base.Texts.{Text}

-- A character in front of the first of the parts.
abbrev pub push_head : ℕ → List Text → List Text
push_head c [] = (c ∷ []) ∷ []
push_head c (w ∷ ws) = (c ∷ w) ∷ ws

-- `s.split(sep)`
unfoldable pub split : ℕ → Text → List Text
split sep [] = [] ∷ []
split sep (c ∷ s) = let rest = split sep s in if c == sep then [] ∷ rest else push_head c rest

-- `sep.join(ws)`
unfoldable pub join : ℕ → List Text → Text
join sep [] = []
join sep (w ∷ []) = w
join sep (w ∷ v ∷ ws) = w ++ sep ∷ join sep (v ∷ ws)

-- The text does not hold the character.
abbrev pub Lacks : ℕ → Text → Type 0
Lacks sep s = All (λ c. c ≢ sep) s

pub split-ne-nil : (sep : ℕ) (s : Text) → split sep s ≢ []
unfolding split
split-ne-nil sep [] = cc
split-ne-nil sep (c ∷ s) = ground (arith, split-ne-nil sep s)

push_head-Lacks :
    (sep c : ℕ) (ws : List Text) → c ≢ sep → All (Lacks sep) ws → All (Lacks sep) (push_head c ws)
push_head-Lacks sep c [] h k = ((h, tt), tt)
push_head-Lacks sep c (w ∷ ws) h (k, ks) = ((h, k), ks)

-- No part of a split holds the separator.
pub split-Lacks : (sep : ℕ) (s : Text) → All (Lacks sep) (split sep s)
unfolding split
split-Lacks sep [] = (tt, tt)
split-Lacks sep (c ∷ s) = ground (arith, split-Lacks sep s, push_head-Lacks sep c (split sep s))

-- A text that lacks the separator is one part, and what follows a separator splits by itself.
pub split_part : (sep : ℕ) (w : Text) → Lacks sep w → split sep w ≡ w ∷ []
unfolding split
split_part sep [] h = refl
split_part sep (c ∷ w) (n, h) = ground (arith, split_part sep w h)

pub split-append : (sep : ℕ) (w s : Text) → Lacks sep w → split sep (w ++ sep ∷ s) ≡ w ∷ split sep s
unfolding split
split-append sep [] s h = ground arith
split-append sep (c ∷ w) s (n, h) = ground (arith, split-append sep w s h)

-- Splitting a join gives back the parts, if there are some and none holds the separator.
pub split-join :
    (sep : ℕ) (w : Text) (ws : List Text)
    → All (Lacks sep) (w ∷ ws)
    → split sep (join sep (w ∷ ws)) ≡ w ∷ ws
unfolding join
split-join sep w [] (h, _) = split_part sep w h
split-join sep w (v ∷ ws) (h, k) =
    split-append sep w (join sep (v ∷ ws)) h ∙ ap (λ r. w ∷ r) (split-join sep v ws k)

join-nil_cons : (sep : ℕ) (ws : List Text) → ws ≢ [] → join sep ([] ∷ ws) ≡ sep ∷ join sep ws
unfolding join
join-nil_cons sep [] h = absurd (h refl)
join-nil_cons sep (w ∷ ws) h = refl

join-push_head :
    (sep c : ℕ) (ws : List Text) → ws ≢ [] → join sep (push_head c ws) ≡ c ∷ join sep ws
unfolding join
join-push_head sep c [] h = absurd (h refl)
join-push_head sep c (w ∷ []) h = refl
join-push_head sep c (w ∷ v ∷ ws) h = refl

-- Joining a split gives back the text.
pub join-split : (sep : ℕ) (s : Text) → join sep (split sep s) ≡ s
unfolding split
join-split sep [] = unfold join in refl
join-split sep (c ∷ s) = ground (
  arith,
  join-split sep s,
  join-nil_cons sep (split sep s) (split-ne-nil sep s),
  join-push_head sep c (split sep s) (split-ne-nil sep s),
)

-- What holds of every character holds of every character of the parts.
module _ {κ} (P : ℕ → Type κ) where
  push_head-All : (c : ℕ) (ws : List Text) → P c → All (All P) ws → All (All P) (push_head c ws)
  push_head-All c [] p h = ((p, tt), tt)
  push_head-All c (w ∷ ws) p (k, h) = ((p, k), h)

  pub split-All : (sep : ℕ) (s : Text) → All P s → All (All P) (split sep s)
  unfolding split
  split-All sep [] h = (tt, tt)
  split-All sep (c ∷ s) (p, h) = ground (arith, split-All sep s h, push_head-All c (split sep s) p)
