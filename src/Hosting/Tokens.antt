-- ===== src/Hosting/Tokens.antt =====
-- apps/hosting/deploy_tokens.py: tokens for deploys of previews.
use hosting_service.Base.{
  ℕ, ◌+◌, ◌*◌, Bool, true, false, ◌||◌, Option, none, some, ◌++◌, Text, codes, text_eq, strip, take,
  find_first, is_empty, if◌then◌else◌, ltb, Result, ok, err, ◌>>=◌, ◌>>◌, raise_if,
}
use hosting_service.Hosting.Models.{Table, insert, modify, filter_rows}
use hosting_service.Hosting.Expiry.{day, expired_at}
pub mod Revoked

pub record DeployToken : Type 0 where
  pub id : ℕ
  pub company_id : ℕ
  pub name : Text
  pub prefix : Text
  pub token_hash : Text
  pub created_by_id : Option ℕ
  pub created_at : ℕ
  pub last_used_at : Option ℕ
  pub expires_at : Option ℕ
  pub revoked_at : Option ℕ

abbrev pub token_prefix : Text
token_prefix = codes "shellui_dt_"

-- _LOOKUP_LEN
abbrev pub lookup_len : ℕ
lookup_len = 19

pub data TokenError : Type 0 where
  name_required bad_lifetime : TokenError

-- A lifetime below 0 is refused as 0 is.
abbrev pub token_lifetime : ℕ → Option ℕ → Result TokenError (Option ℕ)
token_lifetime now none = ok none
token_lifetime now (some days) =
    if ltb days 1 || ltb 366 days then err bad_lifetime else ok (some (now + day * days))

abbrev pub new_token : (Text → Text) → ℕ → ℕ → ℕ → Text → Option ℕ → Option ℕ → Text → DeployToken
new_token hash_token now id company label creator expires_at raw = record {
  id = id;
  company_id = company;
  name = label;
  prefix = take lookup_len raw;
  token_hash = hash_token raw;
  created_by_id = creator;
  created_at = now;
  last_used_at = none;
  expires_at = expires_at;
  revoked_at = none;
}

-- `hash_token` is SHA-256 in hexadecimal, `secret` what `secrets.token_urlsafe(32)` gives.
unfoldable pub create_deploy_token :
    (Text → Text)
    → ℕ
    → ℕ
    → ℕ
    → Text
    → Option ℕ
    → Option ℕ
    → Text
    → Table DeployToken
    → Result TokenError (Table DeployToken × DeployToken × Text)
create_deploy_token hash_token now id company name creator days secret tokens = do
  let label = take 100 (strip name)
  raise_if (is_empty label) name_required
  expires_at ← token_lifetime now days
  let raw = token_prefix ++ secret
  let token = new_token hash_token now id company label creator expires_at raw
  ok (insert id token tokens, token, raw)

abbrev pub revoked_token : ℕ → DeployToken → DeployToken
revoked_token now token = record token { revoked_at = some now }

abbrev pub save_revoked : DeployToken → DeployToken → DeployToken
save_revoked token row = record row { revoked_at = token.revoked_at }

abbrev pub is_set : Option ℕ → Bool
is_set none = false
is_set (some t) = true

unfoldable pub revoke_deploy_token :
    ℕ → DeployToken → Table DeployToken → Table DeployToken × DeployToken
revoke_deploy_token now token tokens =
    if is_set token.revoked_at
    then (tokens, token)
    else (modify token.id (save_revoked (revoked_token now token)) tokens, revoked_token now token)

pub data AuthError : Type 0 where
  deploy_token_invalid deploy_token_revoked deploy_token_expired : AuthError

abbrev pub has_prefix : Text → DeployToken → Bool
has_prefix raw t = text_eq t.prefix (take lookup_len raw)

abbrev pub same_digest : (Text → Text) → Text → DeployToken → Bool
same_digest hash_token raw t = text_eq t.token_hash (hash_token raw)

-- `last_used_at` is written at most once a minute.
abbrev pub needs_touch : ℕ → Option ℕ → Bool
needs_touch now none = true
needs_touch now (some used) = ltb (used + 60) now

abbrev pub touch : ℕ → DeployToken → DeployToken
touch now row = record row { last_used_at = some now }

abbrev pub accepted :
    ℕ → Table DeployToken → Option DeployToken → Result AuthError (Table DeployToken × DeployToken)
accepted now tokens none = err deploy_token_invalid
accepted now tokens (some t) = do
  raise_if (is_set t.revoked_at) deploy_token_revoked
  raise_if (expired_at now t.expires_at) deploy_token_expired
  ok (if needs_touch now t.last_used_at then modify t.id (touch now) tokens else tokens, t)

unfoldable pub resolve_deploy_token :
    (Text → Text)
    → ℕ
    → Text
    → Table DeployToken
    → Result AuthError (Table DeployToken × DeployToken)
resolve_deploy_token hash_token now raw tokens =
    accepted now tokens
      (find_first (same_digest hash_token raw) (filter_rows (has_prefix raw) tokens))
