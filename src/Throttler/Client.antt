-- ===== src/Throttler/Client.antt =====
-- `_client_address_key_resolver` of security/throttler.py: the address that a request is counted
-- under. The parser of addresses and the test of an address against a network are Python's
-- `ipaddress`, and so parameters.
use bustan.Prelude.{
  ℕ, suc, Bool, false, Option, none, some, List, [], ◌∷◌, ◌++◌, ◌==◌, nat_eq, list_eq, Text,
  if◌then◌else◌, any, reverse, drop, lstrip, strip, split, before,
}

abbrev pub starts_with : ℕ → Text → Bool
starts_with c [] = false
starts_with c (d ∷ text) = d == c

-- `candidate.count(c)`
abbrev pub count_of : ℕ → Text → ℕ
count_of c [] = 0
count_of c (d ∷ text) = let rest = count_of c text in if d == c then suc rest else rest

abbrev pub throttle_prefix : Text
throttle_prefix = b't' ∷ b'h' ∷ b'r' ∷ b'o' ∷ b't' ∷ b't' ∷ b'l' ∷ b'e' ∷ b':' ∷ []

abbrev pub unknown_client_key : Text
unknown_client_key = throttle_prefix ++ b'u' ∷ b'n' ∷ b'k' ∷ b'n' ∷ b'o' ∷ b'w' ∷ b'n' ∷ []

-- What the resolver reads of a request: the host of its peer and its `x-forwarded-for` header.
pub record ClientRequest : Type 0 where
  pub peer : Option Text
  pub forwarded : Option Text

-- What `_parse_address` hands to `ip_address`: no port and no brackets.
unfoldable pub candidate_of : Text → Text
unfolding strip lstrip before
candidate_of value =
    let candidate = strip value in
    if starts_with b'[' candidate
    then before b']' (drop 1 candidate)
    else if count_of b':' candidate == 1
    then before b':' candidate
    else candidate

-- `claimed or peer`, with an empty text for false
abbrev or_else : Option Text → Text → Text
or_else none peer = peer
or_else (some []) peer = peer
or_else (some (c ∷ claimed)) peer = c ∷ claimed

module _ {Address Network : Type 0} (ip_address : Text → Option Address)
    (compressed : Address → Text) (is_in : Address → Network → Bool) (networks : List Network) where
  -- `_parse_address`
  abbrev pub parse_address : Text → Option Address
  parse_address value = ip_address (candidate_of value)

  -- `any(address in network for network in networks)`
  abbrev pub is_proxy : Address → Bool
  is_proxy address = any (λ network. is_in address network) networks

  -- `_is_trusted`
  unfoldable pub is_trusted : Text → Bool
  is_trusted host = elim (parse_address host) [ none ↦ false | some address ↦ is_proxy address ]

  -- The loop of `_forwarded_client`, over the entries from the right.
  unfoldable pub first_outside : List Text → Option Text
  first_outside [] = none
  first_outside (entry ∷ rest) = elim (parse_address entry) [
    | none ↦ none
    | some address ↦ if is_proxy address then first_outside rest else some (compressed address)
  ]

  -- `_forwarded_client`
  unfoldable pub forwarded_client : Text → Option Text
  forwarded_client forwarded = first_outside (reverse (split b',' forwarded))

  -- An absent header and an empty one name nobody.
  abbrev pub claimed_by : Option Text → Option Text
  claimed_by none = none
  claimed_by (some []) = none
  claimed_by (some (c ∷ forwarded)) = forwarded_client (c ∷ forwarded)

  -- `resolve`, of a request or of none
  unfoldable pub client_key : Option ClientRequest → Text
  client_key none = unknown_client_key
  client_key (some request) = elim request.peer [
    | none ↦ unknown_client_key
    | some peer ↦
        if is_trusted peer
        then throttle_prefix ++ or_else (claimed_by request.forwarded) peer
        else throttle_prefix ++ peer
  ]
