-- ===== src/Hosting/Storage/Keys.antt =====
-- The keys of extracted files: `build_storage_key` of apps/hosting/storage.py on plain paths.
use hosting_service.Base.{
  ℕ, ◌≡◌, refl, sym, ap, subst, ◌∙◌, ◌⊎◌, inl, inr, Bool, true, false, [], ◌∷◌, ◌++◌, append_assoc,
  Text, codes, strip, strip_left, strip_right, strip_both, cons_kept, is_space, is_slash,
  strip_slashes, split, StartsClean, EndsClean, strip_left_clean, strip_right_clean, is_empty, All,
  Bool-cases, if◌then◌else◌,
}
use hosting_service.Hosting.Storage.{
  StorageSettings, build_storage_key, extracted_prefix, extracted_file_key,
}
use hosting_service.Hosting.Paths.Normal.{IsPlain}
use hosting_service.Hosting.Paths.Requests.{IsPlain-EndsClean}

abbrev pub ends_in_space : Text → Bool
ends_in_space [] = false
ends_in_space (c ∷ []) = is_space c
ends_in_space (c ∷ d ∷ s) = ends_in_space (d ∷ s)

-- The key is the path below the extracted directory of the deployment. A path whose last name ends
-- in white space is another matter: `build_storage_key` strips it.
abbrev pub IsBelow : StorageSettings → Text → Text → Text → Type 0
IsBelow cfg storage_prefix rel key =
    (ends_in_space rel ≡ true)
    ⊎ (key ≡ build_storage_key cfg (extracted_prefix storage_prefix) ++ b'/' ∷ rel)

space-EndsClean : (s : Text) → ends_in_space s ≡ false → EndsClean is_space s
space-EndsClean [] h = tt
space-EndsClean (c ∷ []) h = h
space-EndsClean (c ∷ d ∷ s) h = space-EndsClean (d ∷ s) h

module _ (p : ℕ → Bool) where
  strip_left-append : (x t : Text) → StartsClean p t → strip_left p (x ++ t) ≡ strip_left p x ++ t
  unfolding strip_left
  strip_left-append [] t h = strip_left_clean p t h
  strip_left-append (c ∷ x) t h = elim (Bool-cases (p c)) [
    | inl gone ↦ rw gone (strip_left-append x t h)
    | inr kept ↦ rw kept refl
  ]

  kept-cons : (c : ℕ) (s : Text) → is_empty s ≡ false → cons_kept p c s ≡ c ∷ s
  kept-cons c [] h = cc
  kept-cons c (d ∷ s) h = refl

  append-some : (x t : Text) → is_empty t ≡ false → is_empty (x ++ t) ≡ false
  append-some [] t h = h
  append-some (c ∷ x) t h = refl

  strip_right-append :
      (x t : Text)
      → is_empty (strip_right p t) ≡ false
      → strip_right p (x ++ t) ≡ x ++ strip_right p t
  unfolding strip_right
  strip_right-append [] t h = refl
  strip_right-append (c ∷ x) t h =
      ap (cons_kept p c) (strip_right-append x t h)
      ∙ kept-cons c (x ++ strip_right p t) (append-some x (strip_right p t) h)

  strip_both-append :
      (x t t' : Text)
      → StartsClean p t
      → strip_right p t ≡ t'
      → is_empty t' ≡ false
      → strip_both p (x ++ t) ≡ strip_left p x ++ t'
  unfolding strip_both
  strip_both-append x t t' h same k =
      ap (strip_right p) (strip_left-append x t h)
      ∙ strip_right-append (strip_left p x) t (ap is_empty same ∙ k)
      ∙ ap (λ s. strip_left p x ++ s) same

-- What stands in front of the name of the extracted directory.
front : Text → Text
front storage_prefix =
    strip_left is_slash (strip_left is_space (strip_right is_slash storage_prefix ++ codes "/"))

module _ (cfg : StorageSettings) (storage_prefix : Text) where
  tail_key :
      (t t' t'' : Text)
      → StartsClean is_space t
      → StartsClean is_slash t'
      → strip_right is_space t ≡ t'
      → is_empty t' ≡ false
      → strip_right is_slash t' ≡ t''
      → is_empty t'' ≡ false
      → strip_slashes (strip ((strip_right is_slash storage_prefix ++ codes "/") ++ t))
        ≡ front storage_prefix ++ t''
  unfolding strip_slashes strip front
  tail_key t t' t'' start start' right some_left right' some_left' =
      let x = strip_right is_slash storage_prefix ++ codes "/" in
      ap (strip_both is_slash) (strip_both-append is_space x t t' start right some_left)
      ∙ strip_both-append is_slash (strip_left is_space x) t' t'' start' right' some_left'

  whole_key :
      (relative rest : Text)
      → strip_slashes (strip relative) ≡ rest
      → build_storage_key cfg relative ≡ (
          if is_empty (strip_slashes (strip cfg.key_prefix))
          then rest
          else strip_slashes (strip cfg.key_prefix) ++ b'/' ∷ rest)
  unfolding build_storage_key
  whole_key relative rest same = rw same refl

  joined_key :
      (prefix rest rel : Text)
      → (if is_empty prefix then rest ++ b'/' ∷ rel else prefix ++ b'/' ∷ (rest ++ b'/' ∷ rel))
        ≡ (if is_empty prefix then rest else prefix ++ b'/' ∷ rest) ++ b'/' ∷ rel
  joined_key [] rest rel = refl
  joined_key (c ∷ prefix) rest rel = sym (append_assoc (c ∷ prefix) (b'/' ∷ rest) (b'/' ∷ rel))

plain-start : (c : ℕ) (s : Text) → All IsPlain (split b'/' (c ∷ s)) → is_slash c ≡ false
unfolding split
plain-start c s h = elim (Bool-cases (is_slash c)) [
  | inl slash ↦ absurd ((rw slash at h).0.some_name refl)
  | inr other ↦ other
]

-- The key of a plain path that does not end in white space.
plain_key :
    (cfg : StorageSettings) (storage_prefix : Text) (c : ℕ) (s : Text)
    → All IsPlain (split b'/' (c ∷ s))
    → ends_in_space (c ∷ s) ≡ false
    → build_storage_key cfg (extracted_prefix storage_prefix ++ c ∷ s)
      ≡ build_storage_key cfg (extracted_prefix storage_prefix) ++ b'/' ∷ c ∷ s
unfolding extracted_prefix strip_right is_space
plain_key cfg storage_prefix c s plain clean =
    let x = strip_right is_slash storage_prefix in
    let r = c ∷ s in
    let t = codes "extracted/" ++ r in
    let no_space = strip_right_clean is_space t (space-EndsClean r clean) in
    let no_slash = strip_right_clean is_slash t (IsPlain-EndsClean r plain) in
    let front = front storage_prefix in
    let own =
      ap (λ k. strip_slashes (strip k))
        (append_assoc x (codes "/extracted/") r ∙ sym (append_assoc x (codes "/") t))
      ∙ tail_key cfg storage_prefix t t t refl refl no_space refl no_slash refl
      ∙ sym (append_assoc front (codes "extracted") (b'/' ∷ r)) in
    let directory =
      ap (λ k. strip_slashes (strip k)) (sym (append_assoc x (codes "/") (codes "extracted/")))
      ∙ tail_key cfg storage_prefix (codes "extracted/") (codes "extracted/") (codes "extracted")
          refl refl refl refl refl refl in
    let rest = front ++ codes "extracted" in
    whole_key cfg storage_prefix (extracted_prefix storage_prefix ++ r) (rest ++ b'/' ∷ r) own
    ∙ joined_key cfg storage_prefix (strip_slashes (strip cfg.key_prefix)) rest r
    ∙ ap (λ k. k ++ b'/' ∷ r)
        (sym (whole_key cfg storage_prefix (extracted_prefix storage_prefix) rest directory))

same_rel :
    (c : ℕ) (s : Text) → All IsPlain (split b'/' (c ∷ s)) → strip_left is_slash (c ∷ s) ≡ c ∷ s
same_rel c s plain = strip_left_clean is_slash (c ∷ s) (plain-start c s plain)

-- The key as an extraction makes it, and as a request does.
pub written-IsBelow :
    (cfg : StorageSettings) (storage_prefix rel : Text)
    → All IsPlain (split b'/' rel)
    → IsBelow cfg storage_prefix rel
        (build_storage_key cfg (extracted_prefix storage_prefix ++ rel))
unfolding split
written-IsBelow cfg storage_prefix [] plain = absurd (plain.0.some_name refl)
written-IsBelow cfg storage_prefix (c ∷ s) plain = elim (Bool-cases (ends_in_space (c ∷ s))) [
  | inl space ↦ inl space
  | inr clean ↦ inr (plain_key cfg storage_prefix c s plain clean)
]

pub extracted_file_key-IsBelow :
    (cfg : StorageSettings) (storage_prefix rel : Text)
    → All IsPlain (split b'/' rel)
    → IsBelow cfg storage_prefix rel (extracted_file_key cfg storage_prefix rel)
unfolding extracted_file_key split
extracted_file_key-IsBelow cfg storage_prefix [] plain = absurd (plain.0.some_name refl)
extracted_file_key-IsBelow cfg storage_prefix (c ∷ s) plain =
    subst
      (λ r.
        IsBelow cfg storage_prefix (c ∷ s)
          (build_storage_key cfg (extracted_prefix storage_prefix ++ r)))
      (sym (same_rel c s plain)) (written-IsBelow cfg storage_prefix (c ∷ s) plain)
