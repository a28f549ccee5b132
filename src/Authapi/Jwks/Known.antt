-- ===== src/Authapi/Jwks/Known.antt =====
-- Which keys get_signing_key returns.
use hosting_service.Base.{
  ℕ, ◌≡◌, ◌≢◌, refl, sym, ap, subst, ◌∙◌, inl, inr, Bool, true, false, not, ◌&&◌, Option, none,
  some, List, Text, is_empty, Bool-cases, Result, ok, bind-eq-ok, ◌>>=◌,
}
use hosting_service.Authapi.Jwks.{
  JwkEntry, Fetch, KeyError, JwksSettings, JwksClient, find_key, keys_of, apply_document,
  fetch_document, is_fresh, or_cached, refreshed, refresh, not_found, or_else, second_look,
  first_look, get_signing_key,
}

module _ {K : Type 0} (cfg : JwksSettings K) where
  abbrev pub IsStatic : JwksClient K → Option (List (JwkEntry K)) → Type 0
  IsStatic c none = Unit
  IsStatic c (some entries) = c.raw ≡ entries

  -- The keys are those of the document that was applied last; a static one is never replaced.
  pub record IsLoaded (c : JwksClient K) : Type 0 where
    pub loaded : c.keys ≡ keys_of cfg c.raw
    pub static : IsStatic c cfg.static_document

  cached : {a b : JwksClient K} → Path (Result KeyError (JwksClient K)) (ok a) (ok b) → a ≡ b
  cached h = cc

  or_cached-IsLoaded :
      (now : ℕ) (c c' : JwksClient K) (o : Option (List (JwkEntry K)))
      → cfg.static_document ≡ none
      → or_cached cfg now c o ≡ ok c'
      → IsLoaded c
      → IsLoaded c'
  or_cached-IsLoaded now c c' none e h l = elim (Bool-cases (is_empty c.keys)) [
    | inl nothing ↦ cc (rw nothing at h)
    | inr something ↦ subst IsLoaded (cached (rw something at h)) l
  ]
  or_cached-IsLoaded now c c' (some entries) e h l = subst IsLoaded (cached h) (record {
    loaded = refl;
    static = subst (IsStatic (apply_document cfg now entries)) (sym e) tt;
  })

  refreshed-IsLoaded :
      (get : ℕ → Fetch K) (now : ℕ) (force : Bool) (c c' : JwksClient K)
      (o : Option (List (JwkEntry K)))
      → cfg.static_document ≡ o
      → refreshed cfg get now force c o ≡ ok c'
      → IsLoaded c
      → IsLoaded c'
  refreshed-IsLoaded get now force c c' (some entries) e h l = elim (Bool-cases (is_empty c.keys)) [
    | inl nothing ↦ subst IsLoaded (cached (rw nothing at h)) (record {
      loaded = refl;
      static = subst (IsStatic (apply_document cfg now entries)) (sym e) refl;
    })
    | inr something ↦ subst IsLoaded (cached (rw something at h)) l
  ]
  refreshed-IsLoaded get now force c c' none e h l =
      elim (Bool-cases (not force && is_fresh cfg now c)) [
        | inl fresh ↦ subst IsLoaded (cached (rw fresh at h)) l
        | inr stale ↦
            or_cached-IsLoaded now c c' (fetch_document get cfg.retries 1) e (rw stale at h) l
      ]

  no_key : (c c' : JwksClient K) (key : K) → not_found c ≢ ok (c', some key)
  no_key c c' key h = elim (Bool-cases (is_empty c.keys)) [
    | inl nothing ↦ cc (rw nothing at h)
    | inr something ↦ cc (rw something at h)
  ]

  same_answer :
      {a b : JwksClient K} {x y : Option K}
      → Path (Result KeyError (JwksClient K × Option K)) (ok (a, x)) (ok (b, y))
      → (a ≡ b) × (x ≡ y)
  same_answer h = (cc, cc)

  -- The client that answers holds the key.
  Answers : Text → JwksClient K → K → Type 0
  Answers kid c key = (find_key kid c.keys ≡ some key) × IsLoaded c

  answer :
      (kid : Text) (c c' : JwksClient K) (key found : K)
      → find_key kid c.keys ≡ some found
      → Path (Result KeyError (JwksClient K × Option K)) (ok (c, some found)) (ok (c', some key))
      → IsLoaded c
      → Answers kid c' key
  unfolding Answers
  answer kid c c' key found e h l =
      let (same, value) = same_answer h in
      subst (λ x. (find_key kid x.keys ≡ some key) × IsLoaded x) same (e ∙ value, l)

  second_look-Answers :
      (kid : Text) (c c' : JwksClient K) (key : K) (o : Option K)
      → find_key kid c.keys ≡ o
      → or_else c o (not_found c) ≡ ok (c', some key)
      → IsLoaded c
      → Answers kid c' key
  second_look-Answers kid c c' key none e h l = absurd (no_key c c' key h)
  second_look-Answers kid c c' key (some found) e h l = answer kid c c' key found e h l

  first_look-Answers :
      (get : ℕ → Fetch K) (now : ℕ) (kid : Text) (c c' : JwksClient K) (key : K) (o : Option K)
      → find_key kid c.keys ≡ o
      → or_else c o (refresh cfg get now true c >>= second_look kid) ≡ ok (c', some key)
      → IsLoaded c
      → Answers kid c' key
  unfolding refresh
  first_look-Answers get now kid c c' key (some found) e h l = answer kid c c' key found e h l
  first_look-Answers get now kid c c' key none e h l =
      let (c1, r, s) =
        bind-eq-ok (refreshed cfg get now true c cfg.static_document) (second_look kid) h in
      second_look-Answers kid c1 c' key (find_key kid c1.keys) refl s
        (refreshed-IsLoaded get now true c c1 cfg.static_document refl r l)

-- From a client whose keys are those of the document it holds, which is the static one where one is
-- configured: a key that get_signing_key returns is the one that the token names, in the keys of the
-- document held then, and the client is again such a one; a token without a `kid`, or with an
-- unknown one, gets no key.
pub get_signing_key-IsKnown :
    {K : Type 0} (cfg : JwksSettings K) (get get' : ℕ → Fetch K) (now now' : ℕ) (kid : Option Text)
    (c c' : JwksClient K) (key : K)
    → IsLoaded cfg c
    → get_signing_key cfg get get' now now' kid c ≡ ok (c', some key)
    → (name : Text) × (kid ≡ some name)
      × (find_key name (keys_of cfg c'.raw) ≡ some key)
      × IsLoaded cfg c'
unfolding get_signing_key refresh Answers
get_signing_key-IsKnown cfg get get' now now' none c c' key l h =
    let (c1, r, n) = bind-eq-ok (refreshed cfg get now false c cfg.static_document) not_found h in
    absurd (no_key cfg c1 c' key n)
get_signing_key-IsKnown cfg get get' now now' (some kid) c c' key l h =
    let (c1, r, n) =
      bind-eq-ok (refreshed cfg get now false c cfg.static_document) (first_look cfg get' now' kid)
        h in
    let l1 = refreshed-IsLoaded cfg get now false c c1 cfg.static_document refl r l in
    let (found, l') =
      first_look-Answers cfg get' now' kid c1 c' key (find_key kid c1.keys) refl n l1 in
    (kid, refl, ap (find_key kid) (sym l'.loaded) ∙ found, l')
