-- ===== src/Actions/Retention/Batches.antt =====
-- The loop of _delete_in_batches.
use hosting_service.Base.{
  ℕ, zero, suc, ◌+◌, ◌≤◌, ◌<◌, ◌≡◌, refl, sym, ap, ◌∙◌, inl, inr, Bool, true, false, ◌||◌, Option,
  List, [], ◌∷◌, ◌++◌, arith, length, take, drop, Bool-cases, ◌==◌,
}
use hosting_service.Hosting.Models.{Table, unless}
use hosting_service.Actions.Backoff.{is_member}
use hosting_service.Actions.Retention.{
  passes, matching_keys, matching, delete_keys, after_batch, delete_turns, delete_in_batches,
}
use hosting_service.Actions.Retention.Keys.{
  Apart, without, take-drop, without-take, Apart-drop, member-append, without-nil, without-append,
  zero_plus, plus_zero, length-take-drop,
}

module _ {A : Type 0} (p : A → Bool) where
  pub matching-delete :
      (ids : List ℕ) (row : ℕ → Option A) (keys : List ℕ)
      → matching_keys p (λ j. unless (is_member j ids) (row j)) (without ids keys)
        ≡ without ids (matching_keys p row keys)
  unfolding matching_keys
  matching-delete ids row [] = refl
  matching-delete ids row (i ∷ keys) = elim (Bool-cases (is_member i ids)) [
    | inl gone ↦ elim (Bool-cases (passes p (row i))) [
      | inl pass ↦ rw (gone, pass, gone) (matching-delete ids row keys)
      | inr stays ↦ rw (gone, stays) (matching-delete ids row keys)
    ]
    | inr here ↦ elim (Bool-cases (passes p (row i))) [
      | inl pass ↦ rw (here, here, pass, here) (ap (λ l. i ∷ l) (matching-delete ids row keys))
      | inr stays ↦ rw (here, here, stays) (matching-delete ids row keys)
    ]
  ]

  outside-matching :
      (row : ℕ → Option A) (i : ℕ) (keys : List ℕ)
      → is_member i keys ≡ false
      → is_member i (matching_keys p row keys) ≡ false
  unfolding matching_keys
  outside-matching row i [] e = refl
  outside-matching row i (j ∷ keys) e = elim (Bool-cases (i == j)) [
    | inl same ↦ cc (rw same at e)
    | inr other ↦ elim (Bool-cases (passes p (row j))) [
      | inl pass ↦ rw (pass, other) (outside-matching row i keys (rw other at e))
      | inr stays ↦ rw stays (outside-matching row i keys (rw other at e))
    ]
  ]

  Apart-matching :
      (row : ℕ → Option A) (keys : List ℕ) → Apart keys → Apart (matching_keys p row keys)
  unfolding matching_keys Apart
  Apart-matching row [] h = tt
  Apart-matching row (i ∷ keys) (n, h) = elim (Bool-cases (passes p (row i))) [
    | inl pass ↦ rw pass (outside-matching row i keys n, Apart-matching row keys h)
    | inr stays ↦ rw stays (Apart-matching row keys h)
  ]

module _ {A : Type 0} where
  unless-or : (x y : Bool) (o : Option A) → unless y (unless x o) ≡ unless (x || y) o
  unless-or true true o = refl
  unless-or true false o = refl
  unless-or false y o = refl

  -- Two deletions are one.
  delete-append :
      (a b : List ℕ) (t : Table A) → delete_keys b (delete_keys a t) ≡ delete_keys (a ++ b) t
  delete-append a b t = λ k. record {
    row = λ j.
        (unless-or (is_member j a) (is_member j b) (t.row j)
            ∙ ap (λ c. unless c (t.row j)) (sym (member-append j a b)))
          k;
    keys = without-append a b t.keys k;
  }

  delete-nil : (t : Table A) → delete_keys [] t ≡ t
  delete-nil t = λ k. record { row = t.row; keys = without-nil t.keys k }

module _ {A : Type 0} (p : A → Bool) where
  abbrev Purged : ℕ → List ℕ → Table A → (ℕ × Bool) × Table A
  Purged deleted m t = ((deleted + length m, true), delete_keys m t)

  -- One batch, where the turns that follow purge what it leaves.
  after_batch_lem :
      (rest : ℕ → Table A → (ℕ × Bool) × Table A) (b deleted : ℕ) (t : Table A) (m : List ℕ)
      → 1 ≤ b
      → Apart m
      → matching p t ≡ m
      → ((d : ℕ) (t' : Table A)
          → length (drop b m) < length m
          → matching p t' ≡ drop b m
          → rest d t' ≡ Purged d (drop b m) t')
      → after_batch p deleted t rest (take b m) ≡ Purged deleted m t
  after_batch_lem rest zero deleted t m size apart e ih = absurd (omega arith)
  after_batch_lem rest (suc b) deleted t [] size apart e ih =
      λ k. ((plus_zero deleted k, true), sym (delete-nil t) k)
  after_batch_lem rest (suc b) deleted t (i ∷ l) size apart e ih =
      let sum = length-take-drop b l in
      let total : (deleted + suc (length (take b l))) + length (drop b l)
          ≡ deleted + suc (length l) =
        omega arith in
      ih (deleted + suc (length (take b l))) (delete_keys (i ∷ take b l) t) (omega arith) (
        matching-delete p (i ∷ take b l) t.row t.keys
        ∙ ap (without (i ∷ take b l)) e
        ∙ without-take (suc b) (i ∷ l) apart)
      ∙ (λ k. (
        (total k, true),
        (delete-append (i ∷ take b l) (drop b l) t
              ∙ ap (λ x. delete_keys (i ∷ x) t) (take-drop b l))
            k,
      ))

module _ {A : Type 0} (p : A → Bool) (batch_size : ℕ) (is_late : ℕ → Bool) where
  -- The loop deletes all that matches, and counts it.
  delete_turns_lem :
      (turns k deleted : ℕ) (t : Table A) (m : List ℕ)
      → 1 ≤ batch_size
      → ((j : ℕ) → is_late j ≡ false)
      → matching p t ≡ m
      → Apart m
      → length m < turns
      → delete_turns p batch_size is_late turns k deleted t ≡ Purged p deleted m t
  unfolding delete_turns
  delete_turns_lem zero k deleted t m some_size in_time e apart enough = absurd (omega arith)
  delete_turns_lem (suc turns) k deleted t m some_size in_time e apart enough =
      rw (in_time k, e)
        (after_batch_lem p (delete_turns p batch_size is_late turns (suc k)) batch_size deleted t m
          some_size apart e
          (λ d t' less e'.
            delete_turns_lem turns (suc k) d t' (drop batch_size m) some_size in_time e'
              (Apart-drop batch_size m apart) (omega arith)))

length-matching :
    {A : Type 0} (p : A → Bool) (row : ℕ → Option A) (keys : List ℕ)
    → length (matching_keys p row keys) ≤ length keys
unfolding matching_keys
length-matching p row [] = omega arith
length-matching p row (i ∷ keys) =
    let less = length-matching p row keys in
    elim (Bool-cases (passes p (row i))) [
      | inl pass ↦ rw pass (omega arith)
      | inr stays ↦ rw stays (omega arith)
    ]

-- Without a deadline that passes, _delete_in_batches deletes at once all rows that match, whatever
-- the size of its batches, and returns their number.
pub delete_in_batches_lem :
    {A : Type 0} (p : A → Bool) (batch_size : ℕ) (is_late : ℕ → Bool) (t : Table A)
    → 1 ≤ batch_size
    → ((j : ℕ) → is_late j ≡ false)
    → Apart t.keys
    → delete_in_batches p batch_size is_late t
      ≡ ((length (matching p t), true), delete_keys (matching p t) t)
delete_in_batches_lem p batch_size is_late t some_size in_time apart =
    let less = length-matching p t.row t.keys in
    delete_turns_lem p batch_size is_late (suc (length t.keys)) 0 0 t (matching p t) some_size
      in_time refl (Apart-matching p t.row t.keys apart) (omega arith)
    ∙ (λ k. ((zero_plus (length (matching p t)) k, true), delete_keys (matching p t) t))
