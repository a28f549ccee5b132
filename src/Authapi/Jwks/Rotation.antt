-- ===== src/Authapi/Jwks/Rotation.antt =====
-- New keys of the identity service.
use hosting_service.Base.{
  ℕ, zero, suc, ◌+◌, ◌≤◌, ◌<◌, ◌≡◌, refl, ap, ◌∙◌, ◌⊎◌, inl, inr, true, false, Option, none, some,
  List, arith, Text, Bool-cases, ok, ◌>>=◌,
}
use hosting_service.Authapi.Jwks.{
  JwkEntry, Fetch, document, failed, JwksSettings, JwksClient, find_key, keys_of, apply_document,
  fetch_document, is_fresh, refresh, or_else, second_look, first_look, get_signing_key,
  is_retryable_status,
}

module _ {K : Type 0} (cfg : JwksSettings K) (entries : List (JwkEntry K)) (kid : Text) (key : K)
    (online : cfg.static_document ≡ none)
    (published : find_key kid (keys_of cfg entries) ≡ some key) where
  forced :
      (get : ℕ → Fetch K) (now : ℕ) (c : JwksClient K)
      → fetch_document get cfg.retries 1 ≡ some entries
      → refresh cfg get now true c ≡ ok (apply_document cfg now entries)
  unfolding refresh
  forced get now c fetched = rw (online, fetched) refl

  unforced :
      (get : ℕ → Fetch K) (now : ℕ) (c : JwksClient K)
      → fetch_document get cfg.retries 1 ≡ some entries
      → (refresh cfg get now false c ≡ ok c)
        ⊎ (refresh cfg get now false c ≡ ok (apply_document cfg now entries))
  unfolding refresh
  unforced get now c fetched = elim (Bool-cases (is_fresh cfg now c)) [
    | inl fresh ↦ inl (rw (online, fresh) refl)
    | inr stale ↦ inr (rw (online, stale, fetched) refl)
  ]

  looked_up :
      (get : ℕ → Fetch K) (now : ℕ) (c : JwksClient K) (o : Option K)
      → find_key kid c.keys ≡ o
      → (o ≡ none) ⊎ (o ≡ some key)
      → fetch_document get cfg.retries 1 ≡ some entries
      → (c' : JwksClient K) × (or_else c o (refresh cfg get now true c >>= second_look kid)
          ≡ ok (c', some key))
  looked_up get now c o e (inr here) fetched = (c, rw here refl)
  looked_up get now c o e (inl absent) fetched =
      (apply_document cfg now entries, rw (absent, forced get now c fetched, published) refl)

-- After a rotation, without a static document: where the identity service answers with a document
-- that has the `kid` of a token, get_signing_key returns its key, whether the cached keys are fresh or not, unless they
-- have another key under that `kid`.
pub get_signing_key-rotated :
    {K : Type 0} (cfg : JwksSettings K) (entries : List (JwkEntry K)) (kid : Text) (key : K)
    (get get' : ℕ → Fetch K) (now now' : ℕ) (c : JwksClient K)
    → cfg.static_document ≡ none
    → find_key kid (keys_of cfg entries) ≡ some key
    → (find_key kid c.keys ≡ none) ⊎ (find_key kid c.keys ≡ some key)
    → fetch_document get cfg.retries 1 ≡ some entries
    → fetch_document get' cfg.retries 1 ≡ some entries
    → (c' : JwksClient K) × (get_signing_key cfg get get' now now' (some kid) c ≡ ok (c', some key))
unfolding get_signing_key
get_signing_key-rotated cfg entries kid key get get' now now' c online published held fetched
      fetched' =
    elim (unforced cfg entries kid key online published get now c fetched) [
      | inl fresh ↦
          let (c', answer) =
            looked_up cfg entries kid key online published get' now' c (find_key kid c.keys) refl
              held fetched' in
          (c', ap (λ r. r >>= first_look cfg get' now' kid) fresh ∙ answer)
      | inr stale ↦ (
        apply_document cfg now entries,
        ap (λ r. r >>= first_look cfg get' now' kid) stale ∙ rw published refl,
      )
    ]

plus_zero : (m : ℕ) → m ≡ m + 0
plus_zero m = omega arith

plus_suc : (m n : ℕ) → suc m + n ≡ m + suc n
plus_suc m n = omega arith

-- An identity service that fails for a while is asked again: where each of the first `n` attempts
-- fails in a way that is retried, the next one answers, and there are as many retries, the
-- document is fetched.
pub fetch_document-retried :
    {K : Type 0} (get : ℕ → Fetch K) (entries : List (JwkEntry K)) (n left attempt : ℕ)
    → ((j : ℕ)
        → j < n
        → (status : Option ℕ) × (get (attempt + j) ≡ failed status)
          × (is_retryable_status status ≡ true))
    → get (attempt + n) ≡ document entries
    → n ≤ left
    → fetch_document get left attempt ≡ some entries
unfolding fetch_document
fetch_document-retried get entries zero zero attempt failing answer le =
    rw (ap get (plus_zero attempt) ∙ answer) refl
fetch_document-retried get entries zero (suc left) attempt failing answer le =
    rw (ap get (plus_zero attempt) ∙ answer) refl
fetch_document-retried get entries (suc n) zero attempt failing answer le = absurd (omega arith)
fetch_document-retried get entries (suc n) (suc left) attempt failing answer le =
    let (status, fails, again) = failing 0 (omega arith) in
    rw (ap get (plus_zero attempt) ∙ fails, again)
      (fetch_document-retried get entries n left (suc attempt)
        (λ j less.
          let (s, f, r) = failing (suc j) (omega arith) in (s, ap get (plus_suc attempt j) ∙ f, r))
        (ap get (plus_suc attempt n) ∙ answer) (omega arith))
