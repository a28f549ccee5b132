-- ===== src/Config/ClientIp/Proxies.antt =====
-- Which address get_client_ip takes.
use hosting_service.Base.{
  ◌≡◌, refl, sym, ap, ◌∙◌, ◌⊎◌, inl, inr, true, false, not, ◌&&◌, Option, none, some, List, [], ◌∷◌,
  ◌++◌, Text, strip, is_empty, All, Bool-cases, and_true,
}
use mathlib.Core.List.{reverse}
use hosting_service.Config.ClientIp.{
  Addresses, parse_ip_hop, ip_in_trusted_proxies, xff_hops, untrusted_hop, or_next, first_untrusted,
  client_ip_from_xff, remote_address, or_remote, behind_proxy, client_of, get_client_ip,
}

module _ {A : Type 0} (ip : Addresses A) (trusted : List Text) where
  -- A hop that is passed over: no address, or a trusted proxy.
  abbrev pub IsPassed : Text → Type 0
  IsPassed hop = (parse_ip_hop ip hop ≡ none) ⊎ (ip_in_trusted_proxies ip hop trusted ≡ true)

  -- The address of a hop that is no trusted proxy, where all hops after it are passed over.
  pub record IsForwarded (hops : List Text) (found : Text) : Type 0 where
    pub passed : List Text
    pub hop : Text
    pub rest : List Text
    pub address : A
    pub order : hops ≡ passed ++ hop ∷ rest
    pub nearer : All IsPassed passed
    pub parsed : parse_ip_hop ip hop ≡ some address
    pub untrusted : ip_in_trusted_proxies ip hop trusted ≡ false
    pub shown : found ≡ ip.text_of address

  pass_hop :
      (hop : Text) (hops : List Text) (found : Text)
      → IsPassed hop
      → IsForwarded hops found
      → IsForwarded (hop ∷ hops) found
  pass_hop hop hops found p f = record {
    passed = hop ∷ f.passed;
    hop = f.hop;
    rest = f.rest;
    address = f.address;
    order = ap (λ l. hop ∷ l) f.order;
    nearer = (p, f.nearer);
    parsed = f.parsed;
    untrusted = f.untrusted;
    shown = f.shown;
  }

  same_text : {a b : Text} → some a ≡ some b → a ≡ b
  same_text h = cc

  hop_cases :
      (hop : Text) (hops : List Text) (found : Text) (o : Option A)
      → parse_ip_hop ip hop ≡ o
      → (first_untrusted ip trusted hops ≡ some found → IsForwarded hops found)
      → or_next ip (untrusted_hop ip trusted hop o) (first_untrusted ip trusted hops) ≡ some found
      → IsForwarded (hop ∷ hops) found
  hop_cases hop hops found none e later h = pass_hop hop hops found (inl e) (later h)
  hop_cases hop hops found (some addr) e later h =
      elim (Bool-cases (ip_in_trusted_proxies ip hop trusted)) [
        | inl proxy ↦ pass_hop hop hops found (inr proxy) (later (rw proxy at h))
        | inr client ↦ record {
          passed = [];
          hop = hop;
          rest = hops;
          address = addr;
          order = refl;
          nearer = tt;
          parsed = e;
          untrusted = client;
          shown = sym (same_text (rw client at h));
        }
      ]

  first_untrusted-IsForwarded :
      (hops : List Text) (found : Text)
      → first_untrusted ip trusted hops ≡ some found
      → IsForwarded hops found
  unfolding first_untrusted
  first_untrusted-IsForwarded [] found h = cc
  first_untrusted-IsForwarded (hop ∷ hops) found h =
      hop_cases hop hops found (parse_ip_hop ip hop) refl (first_untrusted-IsForwarded hops found) h

  -- Where the address that get_client_ip gives comes from.
  pub data IsClient (remote xff : Option Text) (found : Text) : Type 0 where
    direct : remote_address ip remote ≡ some found → IsClient remote xff found
    forwarded :
        (proxy header : Text)
        → remote_address ip remote ≡ some proxy
        → ip_in_trusted_proxies ip proxy trusted ≡ true
        → xff ≡ some header
        → IsForwarded (reverse (xff_hops ip (strip header))) found
        → IsClient remote xff found

  found_or_remote :
      (remote xff : Option Text) (proxy header found : Text) (o : Option Text)
      → remote_address ip remote ≡ some proxy
      → ip_in_trusted_proxies ip proxy trusted ≡ true
      → xff ≡ some header
      → client_ip_from_xff ip (strip header) trusted ≡ o
      → or_remote ip proxy o ≡ some found
      → IsClient remote xff found
  found_or_remote remote xff proxy header found none r t x e h = direct (r ∙ h)
  found_or_remote remote xff proxy header found (some hop) r t x e h =
      elim (Bool-cases (is_empty hop)) [
        | inl nothing ↦ direct (r ∙ (rw nothing at h))
        | inr something ↦ forwarded proxy header r t x (
            first_untrusted-IsForwarded (reverse (xff_hops ip (strip header))) found
              (e ∙ (rw something at h)))
      ]

  behind_proxy-IsClient :
      (remote : Option Text) (proxy found : Text) (xff : Option Text)
      → remote_address ip remote ≡ some proxy
      → ip_in_trusted_proxies ip proxy trusted ≡ true
      → behind_proxy ip trusted proxy xff ≡ some found
      → IsClient remote xff found
  behind_proxy-IsClient remote proxy found none r t h = direct (r ∙ h)
  behind_proxy-IsClient remote proxy found (some header) r t h =
      elim (Bool-cases (is_empty (strip header))) [
        | inl blank ↦ direct (r ∙ (rw blank at h))
        | inr given ↦
            found_or_remote remote (some header) proxy header found _ r t refl refl (rw given at h)
      ]

  client_of-IsClient :
      (remote xff : Option Text) (found : Text) (o : Option Text)
      → remote_address ip remote ≡ o
      → client_of ip trusted o xff ≡ some found
      → IsClient remote xff found
  client_of-IsClient remote xff found none r h = cc
  client_of-IsClient remote xff found (some proxy) r h = elim (Bool-cases (is_empty proxy)) [
    | inl nothing ↦ cc (rw nothing at h)
    | inr something ↦
        elim (Bool-cases (not (is_empty trusted) && ip_in_trusted_proxies ip proxy trusted)) [
          | inl behind ↦
              behind_proxy-IsClient remote proxy found xff r (and_true _ _ behind).1
                (rw (something, behind) at h)
          | inr alone ↦ direct (r ∙ (rw (something, alone) at h))
        ]
  ]

-- The address that get_client_ip gives is that of the connection; or the connection is from a
-- trusted proxy, and the address is the one of X-Forwarded-For, read from the right, that is no
-- trusted proxy while each hop after it is one or is no address.
pub get_client_ip-IsClient :
    {A : Type 0} (ip : Addresses A) (trusted : List Text) (remote xff : Option Text) (found : Text)
    → get_client_ip ip trusted remote xff ≡ some found
    → IsClient ip trusted remote xff found
unfolding get_client_ip
get_client_ip-IsClient ip trusted remote xff found h =
    client_of-IsClient ip trusted remote xff found (remote_address ip remote) refl h
