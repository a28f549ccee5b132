-- ===== src/Hosting/Slug/Generated.antt =====
-- `generate_public_slug` of apps/hosting/slug.py: the candidates and the loop.
use hosting_service.Base.{
  ==_iff, text_eq_iff, ℕ, zero, suc, ◌+◌, ◌*◌, ◌<◌, ◌≡◌, ◌≢◌, refl, sym, ap, ◌↔◌, ◌⊎◌, Bool, true,
  false, List, [], ◌∷◌, arith, Text, is_one_of, length, All, Bool-cases, ◌==◌, Unicode, ok, err,
  inl, inr,
}
use hosting_service.Hosting.Slug.{
  Secrets, get_or, choice, choices, candidate, generate_from, generate_public_slug,
  public_slug_alphabet, ascii_lowercase, reserved_slugs, validate_slug, exhausted,
}
use native.Mathlib.Nat.{zero-add}
use hosting_service.Hosting.Slug.Shape.{
  IsSlug, IsSlugChar, IsLetter, validate_slug_iff, lower-strip_slug,
}

module _ {κ} (P : ℕ → Type κ) where
  get_or-All : (s : Text) (i : ℕ) → All P s → i < length s → P (get_or s i 0)
  get_or-All [] i h lt = elim lt [ ]
  get_or-All (c ∷ s) zero (h, _) lt = h
  get_or-All (c ∷ s) (suc i) (_, h) lt = get_or-All s i h (omega arith)

letters : All IsLetter ascii_lowercase
letters = omega arith

alphabet : All IsSlugChar public_slug_alphabet
alphabet = omega arith

choice-IsLetter : (r : Secrets) (k : ℕ) → IsLetter (choice r k ascii_lowercase)
choice-IsLetter r k =
    get_or-All IsLetter ascii_lowercase (r.choose k 26) letters (r.choose_lt k 26 (omega arith))

choice-IsSlugChar : (r : Secrets) (k : ℕ) → IsSlugChar (choice r k public_slug_alphabet)
choice-IsSlugChar r k =
    get_or-All IsSlugChar public_slug_alphabet (r.choose k 36) alphabet
      (r.choose_lt k 36 (omega arith))

choices-All : (r : Secrets) (k n : ℕ) → All IsSlugChar (choices r k n)
unfolding choices
choices-All r k zero = tt
choices-All r k (suc n) = (choice-IsSlugChar r k, choices-All r (k + 1) n)

length-choices : (r : Secrets) (k n : ℕ) → length (choices r k n) ≡ n
unfolding choices
length-choices r k zero = refl
length-choices r k (suc n) = ap suc (length-choices r (k + 1) n)

candidate-IsSlug : (r : Secrets) (k : ℕ) → IsSlug (candidate r k)
unfolding candidate
candidate-IsSlug r k = record {
  long_enough = omega (arith, length-choices r (k + 1) 11);
  short_enough = omega (arith, length-choices r (k + 1) 11);
  letter = choice-IsLetter r k;
  chars = (inl (choice-IsLetter r k), choices-All r (k + 1) 11);
}

-- Words of other lengths are other words.
is_one_of_lengths :
    (s : Text) (ws : List Text) → All (λ w. length w ≢ length s) ws → is_one_of s ws ≡ false
unfolding is_one_of
is_one_of_lengths s [] h = refl
is_one_of_lengths s (w ∷ ws) (n, h) =
    ground (arith, is_one_of_lengths s ws h, text_eq_iff s w, λ (e : s ≡ w). n (ap length (sym e)))

candidate_free : (r : Secrets) (k : ℕ) → is_one_of (candidate r k) reserved_slugs ≡ false
unfolding candidate
candidate_free r k =
    is_one_of_lengths (candidate r k) reserved_slugs (omega (arith, length-choices r (k + 1) 11))

length-candidate : (r : Secrets) (k : ℕ) → length (candidate r k) ≡ 12
unfolding candidate
length-candidate r k = omega (arith, length-choices r (k + 1) 11)

candidate-valid :
    (u : Unicode) (r : Secrets) (k : ℕ) → validate_slug u (candidate r k) ≡ ok (candidate r k)
candidate-valid u r k =
    let shape = candidate-IsSlug r k in
    (validate_slug_iff u (candidate r k) (candidate r k)).1
      (lower-strip_slug u (candidate r k) shape.chars, shape, candidate_free r k)

generate_from_sound :
    (r : Secrets) (exists : Text → Bool) (n k : ℕ) (s : Text)
    → generate_from r exists n k ≡ ok s
    → (exists s ≡ false) × ((j : ℕ) × (s ≡ candidate r j))
unfolding generate_from
generate_from_sound r exists zero k s h = cc
generate_from_sound r exists (suc n) k s h = elim (Bool-cases (exists (candidate r k))) [
  | inl taken ↦ generate_from_sound r exists n (k + 12) s (rw taken at h)
  | inr free ↦ let e : candidate r k ≡ s = ground arith in (rw (← e) free, (k, sym e))
]

-- The rounds of a loop, split into the first and the others.
module _ (r : Secrets) (exists : Text → Bool) (n k : ℕ) where
  all_taken :
      exists (candidate r k) ≡ true
      → ((i : ℕ) → i < n → exists (candidate r (k + 12 + 12 * i)) ≡ true)
      → (i : ℕ) → i < suc n
      → exists (candidate r (k + 12 * i)) ≡ true
  all_taken first rest zero lt = let e : k + 12 * 0 ≡ k = omega arith in rw e first
  all_taken first rest (suc i) lt =
      let e : k + 12 * suc i ≡ k + 12 + 12 * i = omega arith in rw e (rest i (omega arith))

  first_taken :
      ((i : ℕ) → i < suc n → exists (candidate r (k + 12 * i)) ≡ true)
      → exists (candidate r k) ≡ true
  first_taken h = let e : k + 12 * 0 ≡ k = omega arith in rw e at (h 0 (omega arith))

  later_taken :
      ((i : ℕ) → i < suc n → exists (candidate r (k + 12 * i)) ≡ true)
      → (i : ℕ) → i < n
      → exists (candidate r (k + 12 + 12 * i)) ≡ true
  later_taken h i lt =
      let e : k + 12 * suc i ≡ k + 12 + 12 * i = omega arith in rw e at (h (suc i) (omega arith))

generate_from-eq-err_iff :
    (r : Secrets) (exists : Text → Bool) (n k : ℕ)
    → (generate_from r exists n k ≡ err exhausted)
      ↔ ((i : ℕ) → i < n → exists (candidate r (k + 12 * i)) ≡ true)
unfolding generate_from
generate_from-eq-err_iff r exists zero k = (λ _ i lt. elim lt [ ], λ _. refl)
generate_from-eq-err_iff r exists (suc n) k = elim (Bool-cases (exists (candidate r k))) [
  | inl taken ↦
      let (to, from) = generate_from-eq-err_iff r exists n (k + 12) in
      (
        λ h. all_taken r exists n k taken (to (rw taken at h)),
        λ h. rw taken (from (later_taken r exists n k h)),
      )
  | inr free ↦ (λ h. cc (rw free at h), λ h. cc (free, first_taken r exists n k h))
]

-- Whatever the random source, a slug that is generated is not in use, has twelve characters, and is
-- one that `validate_slug` accepts as it is.
pub generate_public_slug-valid :
    (u : Unicode) (r : Secrets) (exists : Text → Bool) (s : Text)
    → generate_public_slug r exists ≡ ok s
    → (exists s ≡ false) × (length s ≡ 12) × (validate_slug u s ≡ ok s)
unfolding generate_public_slug
generate_public_slug-valid u r exists s h =
    let (free, (j, e)) = generate_from_sound r exists 32 0 s h in
    (free, rw e (length-candidate r j), rw e (candidate-valid u r j))

Nat-cases : (i n : ℕ) → i < suc n → (i ≡ n) ⊎ (i < n)
Nat-cases i n h = elim (Bool-cases (i == n)) [
  | inl same ↦ inl ((==_iff i n).0 same)
  | inr other ↦ inr (ground arith)
]

-- What holds of every number below n.
abbrev pub AllBelow : ℕ → (ℕ → Type 0) → Type 0
AllBelow zero P = Unit
AllBelow (suc n) P = AllBelow n P × P n

AllBelow_iff : (n : ℕ) (P : ℕ → Type 0) → ((i : ℕ) → i < n → P i) ↔ AllBelow n P
AllBelow_iff zero P = (λ h. tt, λ h i lt. elim lt [ ])
AllBelow_iff (suc n) P =
    let (to, from) = AllBelow_iff n P in
    (
      λ h. (to (λ i lt. h i (omega arith)), h n (omega arith)),
      λ (h, last) i lt. elim (Nat-cases i n lt) [ inl e ↦ rw e last | inr less ↦ from h i less ],
    )

-- Generation fails exactly when each of the 32 candidates that are drawn is in use.
pub generate_public_slug-eq-err_iff :
    (r : Secrets) (exists : Text → Bool)
    → (generate_public_slug r exists ≡ err exhausted)
      ↔ AllBelow 32 (λ i. exists (candidate r (12 * i)) ≡ true)
unfolding generate_public_slug
generate_public_slug-eq-err_iff r exists =
    let (to, from) = generate_from-eq-err_iff r exists 32 0 in
    let (gather, spread) = AllBelow_iff 32 (λ i. exists (candidate r (12 * i)) ≡ true) in
    (
      λ h. gather (λ i lt. rw zero-add at (to h i lt)),
      λ h. from (λ i lt. rw zero-add (spread h i lt)),
    )
