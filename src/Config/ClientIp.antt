-- ===== src/Config/ClientIp.antt =====
-- config/client_ip.py: the address of a client behind trusted proxies.
use hosting_service.Base.{
  ℕ, ◌+◌, ◌/◌, Bool, false, not, ◌&&◌, Option, none, some, List, [], ◌∷◌, ◌++◌, map, Text, codes,
  starts_with, strip, is_slash, split, length, drop, any, keep, is_empty, if◌then◌else◌, ◌==◌,
}
use mathlib.Core.List.{reverse}
pub mod Proxies

-- What the code uses of the module `ipaddress`. An address is given as what is parsed from it.
pub record Addresses (A : Type 0) : Type 0 where
  pub ip_address : Text → Option A
  pub text_of : A → Text
  pub same : A → A → Bool
  -- `addr.ipv4_mapped` of an IPv6 address
  pub ipv4_mapped : A → Option A
  -- whether it lies in `ip_network(entry, strict=False)`; none where that raises
  pub in_network : A → Text → Option Bool
  -- the network address of its /64, for an IPv6 address
  pub network_64 : A → Option Text

abbrev pub push_char : ℕ → Option Text → Option Text
push_char d none = none
push_char d (some t) = some (d ∷ t)

-- What stands before the first `c`.
unfoldable pub before_char : ℕ → Text → Option Text
before_char c [] = none
before_char c (d ∷ s) = let rest = before_char c s in if d == c then some [] else push_char d rest

abbrev pub or_whole : Text → Option Text → Text
or_whole s none = s
or_whole s (some t) = t

abbrev pub is_bracketed : Text → Bool
is_bracketed s = starts_with s (codes "[")

abbrev pub has_port : Text → Bool
has_port raw = length (keep (λ c. c == b':') raw) == 1 && any (λ c. c == b'.') raw

-- The part of a hop that is read as an address.
abbrev pub candidate_of : Text → Option Text
candidate_of raw =
    if is_bracketed raw
    then before_char b']' (drop 1 raw)
    else some (if has_port raw then or_whole raw (before_char b':' raw) else raw)

module _ {A : Type 0} (ip : Addresses A) where
  abbrev pub parse_candidate : Option Text → Option A
  parse_candidate none = none
  parse_candidate (some s) = ip.ip_address (strip s)

  -- `_parse_ip_hop`
  unfoldable pub parse_ip_hop : Text → Option A
  parse_ip_hop hop =
      let raw = strip hop in if is_empty raw then none else parse_candidate (candidate_of raw)

  abbrev pub or_same : A → Option A → A
  or_same addr none = addr
  or_same addr (some mapped) = mapped

  abbrev pub addr_for_trusted_match : A → A
  addr_for_trusted_match addr = or_same addr (ip.ipv4_mapped addr)

  abbrev pub is_true : Option Bool → Bool
  is_true none = false
  is_true (some b) = b

  abbrev pub equals : A → Option A → Bool
  equals addr none = false
  equals addr (some other) = ip.same addr other

  abbrev pub matches_entry : A → Text → Bool
  matches_entry addr entry =
      let e = strip entry in
      if is_empty e
      then false
      else if any is_slash e
      then is_true (ip.in_network addr e)
      else equals addr (ip.ip_address e)

  abbrev pub addr_in_trusted : List Text → Option A → Bool
  addr_in_trusted trusted none = false
  addr_in_trusted trusted (some addr) = any (matches_entry (addr_for_trusted_match addr)) trusted

  -- `_ip_in_trusted_proxies`
  unfoldable pub ip_in_trusted_proxies : Text → List Text → Bool
  ip_in_trusted_proxies s trusted = addr_in_trusted trusted (parse_ip_hop s)

  -- `_xff_hops`
  unfoldable pub xff_hops : Text → List Text
  xff_hops xff = keep (λ part. not (is_empty part)) (map strip (split b',' xff))

  abbrev pub untrusted_hop : List Text → Text → Option A → Option A
  untrusted_hop trusted hop none = none
  untrusted_hop trusted hop (some addr) =
      if ip_in_trusted_proxies hop trusted then none else some addr

  abbrev pub or_next : Option A → Option Text → Option Text
  or_next none rest = rest
  or_next (some addr) rest = some (ip.text_of addr)

  -- The loop of `_client_ip_from_xff`, over the hops from the right.
  unfoldable pub first_untrusted : List Text → List Text → Option Text
  first_untrusted trusted [] = none
  first_untrusted trusted (hop ∷ hops) =
      or_next (untrusted_hop trusted hop (parse_ip_hop hop)) (first_untrusted trusted hops)

  abbrev pub client_ip_from_xff : Text → List Text → Option Text
  client_ip_from_xff xff trusted = first_untrusted trusted (reverse (xff_hops xff))

  abbrev pub or_stripped : Text → Option A → Option Text
  or_stripped remote (some addr) = some (ip.text_of addr)
  or_stripped remote none = if is_empty (strip remote) then none else some (strip remote)

  -- REMOTE_ADDR, in the spelling of `ipaddress` where it is an address.
  abbrev pub remote_address : Option Text → Option Text
  remote_address none = none
  remote_address (some remote) = or_stripped remote (parse_ip_hop remote)

  abbrev pub or_remote : Text → Option Text → Option Text
  or_remote remote none = some remote
  or_remote remote (some found) = if is_empty found then some remote else some found

  abbrev pub behind_proxy : List Text → Text → Option Text → Option Text
  behind_proxy trusted remote none = some remote
  behind_proxy trusted remote (some xff) =
      if is_empty (strip xff)
      then some remote
      else or_remote remote (client_ip_from_xff (strip xff) trusted)

  abbrev pub client_of : List Text → Option Text → Option Text → Option Text
  client_of trusted none xff = none
  client_of trusted (some remote) xff =
      if is_empty remote
      then none
      else if not (is_empty trusted) && ip_in_trusted_proxies remote trusted
      then behind_proxy trusted remote xff
      else some remote

  unfoldable pub get_client_ip : List Text → Option Text → Option Text → Option Text
  get_client_ip trusted remote xff = client_of trusted (remote_address remote) xff

  abbrev pub with_prefix : A → Option Text → Text
  with_prefix a none = ip.text_of a
  with_prefix a (some network) = network ++ codes "/64"

  abbrev pub bucket : A → Text
  bucket a = with_prefix a (ip.network_64 a)

  abbrev pub rate_limit_of : Text → Option A → Text
  rate_limit_of raw none = raw
  rate_limit_of raw (some addr) = bucket (addr_for_trusted_match addr)

  abbrev pub client_ip_rate_limit_key : Option Text → Text
  client_ip_rate_limit_key none = codes "unknown"
  client_ip_rate_limit_key (some s) =
      if is_empty (strip s)
      then codes "unknown"
      else rate_limit_of (strip s) (ip.ip_address (strip s))
