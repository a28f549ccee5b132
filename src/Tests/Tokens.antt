-- ===== src/Tests/Tokens.antt =====
-- Examples on deploy tokens.
use hosting_service.Base.{ℕ, ◌≡◌, ◌≢◌, refl, none, some, ◌∷◌, ◌++◌, Text, codes, strip, length, ok}
use hosting_service.Hosting.Models.{Table, insert, no_rows, modify}
use hosting_service.Hosting.Tokens.{
  DeployToken, create_deploy_token, resolve_deploy_token, revoke_deploy_token, new_token,
  token_prefix, touch,
}
use hosting_service.Hosting.Tokens.Revoked.{
  IsGood, resolve_deploy_token-IsGood, resolve_deploy_token-revoke_deploy_token,
}

-- A digest that can be told apart, for the examples.
abbrev digest : Text → Text
digest raw = length raw ∷ raw

abbrev raw : Text
raw = token_prefix ++ codes "0123456789"

abbrev token : DeployToken
token = new_token digest 5 0 4 (codes "CI") (some 1) none raw

abbrev other : DeployToken
other = new_token digest 6 1 4 (codes "CI") (some 1) none (raw ++ codes "x")

abbrev tokens : Table DeployToken
tokens = insert 1 other (insert 0 token no_rows)

creation :
    create_deploy_token digest 5 0 4 (codes " CI ") (some 1) none (codes "0123456789") no_rows
    ≡ ok (insert 0 token no_rows, token, raw)
unfolding create_deploy_token strip
creation = refl

abbrev used : Table DeployToken
used = modify 0 (touch 9) tokens

resolution : resolve_deploy_token digest 9 raw tokens ≡ ok (used, token)
unfolding resolve_deploy_token
resolution = refl

resolve_deploy_token-IsGood_example :
    ((i : ℕ) × (tokens.row i ≡ some token)) × IsGood digest 9 raw token
resolve_deploy_token-IsGood_example =
    resolve_deploy_token-IsGood digest 9 raw tokens used token resolution

after_revocation :
    resolve_deploy_token digest 9 (raw ++ codes "x") (revoke_deploy_token 8 token tokens).0
    ≡ ok (modify 1 (touch 9) (revoke_deploy_token 8 token tokens).0, other)
unfolding resolve_deploy_token revoke_deploy_token
after_revocation = refl

resolve_deploy_token-revoke_deploy_token_example :
    (i : ℕ) × ((revoke_deploy_token 8 token tokens).0.row i ≡ some other) × (i ≢ 0)
resolve_deploy_token-revoke_deploy_token_example =
    resolve_deploy_token-revoke_deploy_token digest 8 9 (raw ++ codes "x") token other tokens
      (modify 1 (touch 9) (revoke_deploy_token 8 token tokens).0) refl after_revocation
