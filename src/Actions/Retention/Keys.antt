-- ===== src/Actions/Retention/Keys.antt =====
-- Lists of keys, and what a batch leaves of them.
use hosting_service.Base.{
  ℕ, zero, suc, ◌+◌, ◌≡◌, refl, sym, ap, subst, ◌∙◌, inl, inr, true, false, not, ◌||◌, List, [],
  ◌∷◌, ◌++◌, arith, length, take, drop, keep, length-append, All, All-map, Bool-cases, ==_iff, ◌==◌,
}
use hosting_service.Actions.Backoff.{is_member}

-- No key twice.
unfoldable pub Apart : List ℕ → Type 0
Apart [] = Unit
Apart (i ∷ is) = (is_member i is ≡ false) × Apart is

abbrev pub Outside : List ℕ → ℕ → Type 0
Outside is i = is_member i is ≡ false

abbrev pub without : List ℕ → List ℕ → List ℕ
without ids l = keep (λ j. not (is_member j ids)) l

pub without-Outside : (ids l : List ℕ) → All (Outside ids) l → without ids l ≡ l
without-Outside ids [] h = refl
without-Outside ids (i ∷ l) (n, h) = rw (n, without-Outside ids l h) refl

pub without-inside :
    (ids l rest : List ℕ)
    → All (λ i. is_member i ids ≡ true) l
    → without ids (l ++ rest) ≡ without ids rest
without-inside ids [] rest h = refl
without-inside ids (i ∷ l) rest (n, h) = rw n (without-inside ids l rest h)

pub member_further : (i j : ℕ) (is : List ℕ) → is_member i is ≡ true → is_member i (j ∷ is) ≡ true
member_further i j is e = ground (arith, e)

pub each_inside : (is : List ℕ) → All (λ i. is_member i is ≡ true) is
each_inside [] = tt
each_inside (i ∷ is) =
    (rw ((==_iff i i).1 refl) refl, All-map _ _ (λ j. member_further j i is) is (each_inside is))

pub outside_append :
    (i : ℕ) (a b : List ℕ)
    → is_member i (a ++ b) ≡ false
    → (is_member i a ≡ false) × (is_member i b ≡ false)
outside_append i [] b e = (refl, e)
outside_append i (j ∷ a) b e = elim (Bool-cases (i == j)) [
  | inl same ↦ cc (rw same at e)
  | inr other ↦ let (x, y) = outside_append i a b (rw other at e) in (rw other x, y)
]

pub add_outside :
    (j i : ℕ) (a : List ℕ) → (j == i) ≡ false → is_member j a ≡ false → is_member j (i ∷ a) ≡ false
add_outside j i a n e = rw n e

pub flipped : (i j : ℕ) → (i == j) ≡ false → (j == i) ≡ false
flipped i j e = ground arith

pub outside_each : (i : ℕ) (b : List ℕ) → is_member i b ≡ false → All (λ j. (j == i) ≡ false) b
outside_each i [] e = tt
outside_each i (j ∷ b) e = elim (Bool-cases (i == j)) [
  | inl same ↦ cc (rw same at e)
  | inr other ↦ (flipped i j other, outside_each i b (rw other at e))
]

pub Outside-cons :
    (i : ℕ) (a b : List ℕ)
    → All (λ j. (j == i) ≡ false) b
    → All (Outside a) b
    → All (Outside (i ∷ a)) b
Outside-cons i a [] h k = tt
Outside-cons i a (j ∷ b) (n, h) (m, k) = (add_outside j i a n m, Outside-cons i a b h k)

pub nothing_in_nil : (b : List ℕ) → All (Outside []) b
nothing_in_nil [] = tt
nothing_in_nil (j ∷ b) = (refl, nothing_in_nil b)

pub Apart-append : (a b : List ℕ) → Apart (a ++ b) → All (Outside a) b × Apart b
unfolding Apart
Apart-append [] b h = (nothing_in_nil b, h)
Apart-append (i ∷ a) b (n, h) =
    let (k, l) = Apart-append a b h in
    (Outside-cons i a b (outside_each i b (outside_append i a b n).1) k, l)

pub take-drop : (n : ℕ) (l : List ℕ) → take n l ++ drop n l ≡ l
take-drop zero l = refl
take-drop (suc n) [] = refl
take-drop (suc n) (i ∷ l) = ap (λ m. i ∷ m) (take-drop n l)

-- A batch leaves what comes after it.
pub without-take : (n : ℕ) (l : List ℕ) → Apart l → without (take n l) l ≡ drop n l
without-take n l h =
    let (apart, rest) = Apart-append (take n l) (drop n l) (subst Apart (sym (take-drop n l)) h) in
    ap (without (take n l)) (sym (take-drop n l))
    ∙ without-inside (take n l) (take n l) (drop n l) (each_inside (take n l))
    ∙ without-Outside (take n l) (drop n l) apart

pub Apart-drop : (n : ℕ) (l : List ℕ) → Apart l → Apart (drop n l)
Apart-drop n l h = (Apart-append (take n l) (drop n l) (subst Apart (sym (take-drop n l)) h)).1

pub outside-without :
    (ids : List ℕ) (i : ℕ) (l : List ℕ)
    → is_member i l ≡ false
    → is_member i (without ids l) ≡ false
outside-without ids i [] e = refl
outside-without ids i (j ∷ l) e = elim (Bool-cases (i == j)) [
  | inl same ↦ cc (rw same at e)
  | inr other ↦ elim (Bool-cases (is_member j ids)) [
    | inl gone ↦ rw gone (outside-without ids i l (rw other at e))
    | inr here ↦ rw (here, other) (outside-without ids i l (rw other at e))
  ]
]

pub Apart-without : (ids l : List ℕ) → Apart l → Apart (without ids l)
unfolding Apart
Apart-without ids [] h = tt
Apart-without ids (i ∷ l) (n, h) = elim (Bool-cases (is_member i ids)) [
  | inl gone ↦ rw gone (Apart-without ids l h)
  | inr here ↦ rw here (outside-without ids i l n, Apart-without ids l h)
]

pub member-append : (j : ℕ) (a b : List ℕ) → is_member j (a ++ b) ≡ (is_member j a || is_member j b)
member-append j [] b = refl
member-append j (i ∷ a) b = elim (Bool-cases (j == i)) [
  | inl same ↦ rw same refl
  | inr other ↦ rw other (member-append j a b)
]

pub without-nil : (l : List ℕ) → without [] l ≡ l
without-nil [] = refl
without-nil (i ∷ l) = ap (λ m. i ∷ m) (without-nil l)

pub without-append : (a b l : List ℕ) → without b (without a l) ≡ without (a ++ b) l
without-append a b [] = refl
without-append a b (i ∷ l) = elim (Bool-cases (is_member i a)) [
  | inl gone ↦ rw (member-append i a b, gone) (without-append a b l)
  | inr here ↦ elim (Bool-cases (is_member i b)) [
    | inl later ↦ rw (member-append i a b, here, later) (without-append a b l)
    | inr stays ↦ rw (member-append i a b, here, stays) (ap (λ m. i ∷ m) (without-append a b l))
  ]
]

pub zero_plus : (n : ℕ) → 0 + n ≡ n
zero_plus n = omega arith

pub plus_zero : (n : ℕ) → n ≡ n + 0
plus_zero n = omega arith

pub length-take-drop : (n : ℕ) (l : List ℕ) → length l ≡ length (take n l) + length (drop n l)
length-take-drop n l = sym (ap length (take-drop n l)) ∙ length-append (take n l) (drop n l)
