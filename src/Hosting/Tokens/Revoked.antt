-- ===== src/Hosting/Tokens/Revoked.antt =====
-- Which token a raw value resolves to.
use hosting_service.Base.{
  ℕ, ◌≡◌, ◌≢◌, refl, sym, ap, ◌∙◌, inl, inr, Bool, true, false, Option, none, some, List, [], ◌∷◌,
  arith, Text, text_eq_iff, take, find_first, All, Bool-cases, ==_iff, ok, raise_if-eq-ok,
  ok-injective,
}
use hosting_service.Hosting.Models.{Table, filter_rows}
use hosting_service.Hosting.Expiry.{expired_at}
use hosting_service.Hosting.Apps.Ownership.{IsRow, selected-IsRow}
use hosting_service.Hosting.Tokens.{
  DeployToken, lookup_len, is_set, revoke_deploy_token, has_prefix, same_digest, accepted,
  resolve_deploy_token,
}

same_row : {A : Type 0} {a b : A} → some a ≡ some b → a ≡ b
same_row h = cc

find_first-All {κ} :
    {A : Type 0} (P : A → Type κ) (p : A → Bool) (rows : List A) (a : A)
    → All P rows
    → find_first p rows ≡ some a
    → P a × (p a ≡ true)
find_first-All P p [] a h e = cc
find_first-All P p (b ∷ rows) a (k, h) e = elim (Bool-cases (p b)) [
  | inl yes_p ↦ let same = same_row (rw yes_p at e) in (rw (← same) k, rw (← same) yes_p)
  | inr no_p ↦ find_first-All P p rows a h (rw no_p at e)
]

-- A token that is good for a raw value now.
pub record IsGood (hash_token : Text → Text) (now : ℕ) (raw : Text) (t : DeployToken) : Type 0 where
  pub prefix : t.prefix ≡ take lookup_len raw
  pub digest : t.token_hash ≡ hash_token raw
  pub not_revoked : t.revoked_at ≡ none
  pub not_expired : expired_at now t.expires_at ≡ false

accepted-ok :
    (now : ℕ) (tokens tokens' : Table DeployToken) (o : Option DeployToken) (t : DeployToken)
    → accepted now tokens o ≡ ok (tokens', t)
    → (o ≡ some t) × (is_set t.revoked_at ≡ false) × (expired_at now t.expires_at ≡ false)
accepted-ok now tokens tokens' none t h = cc
accepted-ok now tokens tokens' (some s) t h =
    let (valid, h1) = raise_if-eq-ok (is_set s.revoked_at) _ _ h in
    let (alive, h2) = raise_if-eq-ok (expired_at now s.expires_at) _ _ h1 in
    let same = ap (λ p. p.1) (ok-injective _ _ h2) in
    (ap some same, rw same at valid, rw same at alive)

not_set : (o : Option ℕ) → is_set o ≡ false → o ≡ none
not_set none h = refl
not_set (some t) h = cc

-- A raw value resolves only to a stored token with its prefix and its digest that was neither revoked
-- nor has expired.
pub resolve_deploy_token-IsGood :
    (hash_token : Text → Text) (now : ℕ) (raw : Text) (tokens tokens' : Table DeployToken)
    (t : DeployToken)
    → resolve_deploy_token hash_token now raw tokens ≡ ok (tokens', t)
    → ((i : ℕ) × (tokens.row i ≡ some t)) × IsGood hash_token now raw t
unfolding resolve_deploy_token
resolve_deploy_token-IsGood hash_token now raw tokens tokens' t h =
    let (found, valid, alive) = accepted-ok now tokens tokens' _ t h in
    let ((begins, stored), digest) =
      find_first-All (IsRow (has_prefix raw) tokens.row) (same_digest hash_token raw)
        (filter_rows (has_prefix raw) tokens) t
        (selected-IsRow (has_prefix raw) tokens.row tokens.keys) found in
    (
      stored,
      record {
        prefix = (text_eq_iff _ _).0 begins;
        digest = (text_eq_iff _ _).0 digest;
        not_revoked = not_set t.revoked_at valid;
        not_expired = alive;
      },
    )

set_none : (o : Option ℕ) → o ≡ none → is_set o ≡ false
set_none none h = refl
set_none (some t) h = cc

-- The row of a token that is revoked says so.
revoked_row :
    (now : ℕ) (token t : DeployToken) (tokens : Table DeployToken)
    → tokens.row token.id ≡ some token
    → (revoke_deploy_token now token tokens).0.row token.id ≡ some t
    → is_set t.revoked_at ≡ true
unfolding revoke_deploy_token
revoked_row now token t tokens there h = elim (Bool-cases (is_set token.revoked_at)) [
  | inl before ↦
      ap (λ x. is_set x.revoked_at) (sym (same_row (sym there ∙ (rw before at h)))) ∙ before
  | inr first ↦ ground (arith, (==_iff token.id token.id).1 refl, there, first)
]

-- After a stored token was revoked, no raw value resolves to it any more: what it resolves to is another row.
pub resolve_deploy_token-revoke_deploy_token :
    (hash_token : Text → Text) (now later : ℕ) (raw : Text) (token t : DeployToken)
    (tokens tokens' : Table DeployToken)
    → tokens.row token.id ≡ some token
    → resolve_deploy_token hash_token later raw (revoke_deploy_token now token tokens).0
      ≡ ok (tokens', t)
    → (i : ℕ) × ((revoke_deploy_token now token tokens).0.row i ≡ some t) × (i ≢ token.id)
resolve_deploy_token-revoke_deploy_token hash_token now later raw token t tokens tokens' there h =
    let ((i, stored), good) =
      resolve_deploy_token-IsGood hash_token later raw (revoke_deploy_token now token tokens).0
        tokens' t h in
    (
      i,
      stored,
      λ same. cc (
        revoked_row now token t tokens there
            (ap (revoke_deploy_token now token tokens).0.row (sym same) ∙ stored),
        set_none t.revoked_at good.not_revoked,
      ),
    )
