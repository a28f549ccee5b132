-- ===== src/Authapi/Jwks.antt =====
-- apps/authapi/jwks_client.py: the cache of the keys that the identity service signs with.
use hosting_service.Base.{
  ℕ, zero, suc, ◌+◌, ◌-◌, Bool, true, false, not, ◌&&◌, ◌||◌, Option, none, some, List, [], ◌∷◌,
  ◌++◌, Text, codes, text_eq, length, is_empty, if◌then◌else◌, ◌==◌, leb, ltb, Result, ok, err,
  ◌>>=◌, ◌>>◌,
}
pub mod Known
pub mod Rotation

-- An entry of a document, from what PyJWT and `str` make of it: `kid` is none where it is missing
-- or empty, `jwk` where `PyJWK.from_dict` raises.
pub record JwkEntry (K : Type 0) : Type 0 where
  pub kid : Option Text
  pub jwk : Option K

abbrev pub Keys : Type 0 → Type 0
Keys K = List (Text × K)

-- One GET: the document, or an exception with the status of its response.
pub data Fetch (K : Type 0) : Type 0 where
  document : List (JwkEntry K) → Fetch K
  failed : Option ℕ → Fetch K

pub data KeyError : Type 0 where
  fetch_failed no_matching_key : KeyError

pub record JwksSettings (K : Type 0) : Type 0 where
  pub ttl : ℕ
  pub retries : ℕ
  pub static_document : Option (List (JwkEntry K))
  pub number_text : ℕ → Text

pub record JwksClient (K : Type 0) : Type 0 where
  pub fetched_at : ℕ
  pub keys : Keys K
  pub raw : List (JwkEntry K)

-- `_is_retryable`
abbrev pub is_retryable_status : Option ℕ → Bool
is_retryable_status none = true
is_retryable_status (some status) = leb 500 status || status == 408 || status == 429

module _ {K : Type 0} where
  -- `keys[kid] = jwk`, and `keys[kid]`
  unfoldable pub set_key : Text → K → Keys K → Keys K
  set_key kid jwk [] = (kid, jwk) ∷ []
  set_key kid jwk ((k, v) ∷ keys) =
      let rest = set_key kid jwk keys in if text_eq k kid then (k, jwk) ∷ keys else (k, v) ∷ rest

  unfoldable pub find_key : Text → Keys K → Option K
  find_key kid [] = none
  find_key kid ((k, v) ∷ keys) =
      let rest = find_key kid keys in if text_eq k kid then some v else rest

  abbrev pub entry_name : JwksSettings K → Option Text → Keys K → Text
  entry_name cfg (some kid) keys = kid
  entry_name cfg none keys = codes "_anon_" ++ cfg.number_text (length keys)

  -- An entry that is no key is skipped.
  abbrev pub add_jwk : JwksSettings K → Option Text → Keys K → Option K → Keys K
  add_jwk cfg kid keys none = keys
  add_jwk cfg kid keys (some jwk) = set_key (entry_name cfg kid keys) jwk keys

  unfoldable pub add_entries : JwksSettings K → List (JwkEntry K) → Keys K → Keys K
  add_entries cfg [] keys = keys
  add_entries cfg (e ∷ entries) keys = add_entries cfg entries (add_jwk cfg e.kid keys e.jwk)

  -- The keys of a document.
  abbrev pub keys_of : JwksSettings K → List (JwkEntry K) → Keys K
  keys_of cfg entries = add_entries cfg entries []

  abbrev pub apply_document : JwksSettings K → ℕ → List (JwkEntry K) → JwksClient K
  apply_document cfg now entries = record {
    fetched_at = now;
    keys = keys_of cfg entries;
    raw = entries;
  }

  abbrev pub cleared : JwksClient K
  cleared = record { fetched_at = 0; keys = []; raw = [] }

  abbrev pub from_static : JwksSettings K → ℕ → Option (List (JwkEntry K)) → JwksClient K
  from_static cfg now none = cleared
  from_static cfg now (some entries) = apply_document cfg now entries

  -- `JWKSClient.__init__` and `JWKSClient.clear`
  abbrev pub clear : JwksSettings K → ℕ → JwksClient K
  clear cfg now = from_static cfg now cfg.static_document

  abbrev pub or_retry : Option (List (JwkEntry K)) → Fetch K → Option (List (JwkEntry K))
  or_retry again (document d) = some d
  or_retry again (failed status) = if is_retryable_status status then again else none

  -- `_fetch_document`, with the retries left and the number of the attempt; none where it raises.
  unfoldable pub fetch_document : (ℕ → Fetch K) → ℕ → ℕ → Option (List (JwkEntry K))
  fetch_document get zero attempt = or_retry none (get attempt)
  fetch_document get (suc left) attempt =
      let again = fetch_document get left (suc attempt) in or_retry again (get attempt)

  abbrev pub is_fresh : JwksSettings K → ℕ → JwksClient K → Bool
  is_fresh cfg now c = not (is_empty c.keys) && ltb (now - c.fetched_at) cfg.ttl

  abbrev pub or_cached :
      JwksSettings K
      → ℕ
      → JwksClient K
      → Option (List (JwkEntry K))
      → Result KeyError (JwksClient K)
  or_cached cfg now c none = if is_empty c.keys then err fetch_failed else ok c
  or_cached cfg now c (some entries) = ok (apply_document cfg now entries)

  abbrev pub refreshed :
      JwksSettings K
      → (ℕ → Fetch K)
      → ℕ
      → Bool
      → JwksClient K
      → Option (List (JwkEntry K))
      → Result KeyError (JwksClient K)
  refreshed cfg get now force c (some entries) =
      ok (if is_empty c.keys then apply_document cfg now entries else c)
  refreshed cfg get now force c none =
      if not force && is_fresh cfg now c
      then ok c
      else or_cached cfg now c (fetch_document get cfg.retries 1)

  -- `_refresh`; a call that raises leaves the client as it was.
  unfoldable pub refresh :
      JwksSettings K → (ℕ → Fetch K) → ℕ → Bool → JwksClient K → Result KeyError (JwksClient K)
  refresh cfg get now force c = refreshed cfg get now force c cfg.static_document

  abbrev pub not_found : JwksClient K → Result KeyError (JwksClient K × Option K)
  not_found c = if is_empty c.keys then ok (c, none) else err no_matching_key

  abbrev pub or_else :
      JwksClient K
      → Option K
      → Result KeyError (JwksClient K × Option K)
      → Result KeyError (JwksClient K × Option K)
  or_else c none rest = rest
  or_else c (some key) rest = ok (c, some key)

  abbrev pub second_look : Text → JwksClient K → Result KeyError (JwksClient K × Option K)
  second_look kid c = or_else c (find_key kid c.keys) (not_found c)

  -- A new `kid` is fetched once.
  abbrev pub first_look :
      JwksSettings K
      → (ℕ → Fetch K)
      → ℕ
      → Text
      → JwksClient K
      → Result KeyError (JwksClient K × Option K)
  first_look cfg get now kid c =
      or_else c (find_key kid c.keys) (refresh cfg get now true c >>= second_look kid)

  -- `get_signing_key`, for the `kid` of the token's header, where it has one.
  unfoldable pub get_signing_key :
      JwksSettings K
      → (ℕ → Fetch K)
      → (ℕ → Fetch K)
      → ℕ
      → ℕ
      → Option Text
      → JwksClient K
      → Result KeyError (JwksClient K × Option K)
  get_signing_key cfg get get' now now' none c = do c1 ← refresh cfg get now false c; not_found c1
  get_signing_key cfg get get' now now' (some kid) c = do
    c1 ← refresh cfg get now false c
    first_look cfg get' now' kid c1
