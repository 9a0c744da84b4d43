-- ===== src/Throttler/Caller.antt =====
-- The caller that the forwarding header names, against an independent description of it.
use bustan.Prelude.{
  ℕ, ◌<◌, ◌≡◌, ◌↔◌, refl, sym, ap, ◌∙◌, Bool, true, false, Option, some, List, [], ◌∷◌, ◌++◌,
  nat_eq, list_eq, Text, arith, All, reverse, reverse-append, reverse-reverse, All-reverse, length,
  split, onto_first, beq_refl, Option-cases, Bool-cases, inl, inr,
}
use mathlib.Core.List.{append_assoc}
use bustan.Throttler.Client.{
  is_trusted, first_outside, forwarded_client, candidate_of, is_proxy, client_key, claimed_by,
  throttle_prefix,
}

split-nonempty : (sep : ℕ) (text : Text) → 0 < length (split sep text)
unfolding split
split-nonempty sep [] = omega arith
split-nonempty sep (c ∷ text) = ground (arith, split-nonempty sep text)

onto_first-append :
    (c : ℕ) (l m : List Text) → 0 < length l → onto_first c (l ++ m) ≡ onto_first c l ++ m
onto_first-append c [] m h = ground (arith, h)
onto_first-append c (first ∷ l) m h = refl

split-append :
    (sep : ℕ) (text more : Text) → split sep (text ++ sep ∷ more) ≡ split sep text ++ split sep more
unfolding split
split-append sep [] more = rw (beq_refl sep) refl
split-append sep (c ∷ text) more =
    let tail = split-append sep text more in
    let first = onto_first-append c (split sep text) (split sep more) (split-nonempty sep text) in
    ground (arith, tail, first)

reverse-middle :
    (l : List Text) (a : Text) (m : List Text) → reverse (l ++ a ∷ m) ≡ reverse m ++ a ∷ reverse l
reverse-middle l a m =
    reverse-append l (a ∷ m) ∙ (unfold reverse in append_assoc (reverse m) (a ∷ []) (reverse l))

module _ {Address Network : Type 0} (ip_address : Text → Option Address)
    (compressed : Address → Text) (is_in : Address → Network → Bool) (networks : List Network) where
  abbrev pub IsTrusted : Text → Type 0
  IsTrusted entry = is_trusted ip_address compressed is_in networks entry ≡ true

  -- The caller that a header names: the entries behind its own are all proxies, and it is none.
  pub record IsCaller (forwarded : Text) (name : Text) : Type 0 where
    pub left : List Text
    pub entry : Text
    pub right : List Text
    pub address : Address
    pub entries : split b',' forwarded ≡ left ++ entry ∷ right
    pub parses : ip_address (candidate_of entry) ≡ some address
    pub outside : is_proxy ip_address compressed is_in networks address ≡ false
    pub canonical : compressed address ≡ name
    pub behind : All IsTrusted right

  abbrev outside_of : List Text → Option Text
  outside_of = first_outside ip_address compressed is_in networks

  first_outside-append :
      (proxies rest : List Text)
      → All IsTrusted proxies
      → outside_of (proxies ++ rest) ≡ outside_of rest
  unfolding first_outside is_trusted
  first_outside-append [] rest every = refl
  first_outside-append (entry ∷ proxies) rest every =
      ground (arith, first_outside-append proxies rest, every.0, every.1)

  first_outside-here :
      (entry : Text) (rest : List Text) (address : Address)
      → ip_address (candidate_of entry) ≡ some address
      → is_proxy ip_address compressed is_in networks address ≡ false
      → outside_of (entry ∷ rest) ≡ some (compressed address)
  unfolding first_outside
  first_outside-here entry rest address parses outside = ground (arith, parses, outside)

  -- The same of the entries from the right.
  record IsRightmost (entries : List Text) (name : Text) : Type 0 where
    proxies : List Text
    entry : Text
    rest : List Text
    address : Address
    shape : entries ≡ proxies ++ entry ∷ rest
    parses : ip_address (candidate_of entry) ≡ some address
    outside : is_proxy ip_address compressed is_in networks address ≡ false
    canonical : compressed address ≡ name
    trusted : All IsTrusted proxies

  is_proxy-IsTrusted :
      (entry : Text) (address : Address)
      → ip_address (candidate_of entry) ≡ some address
      → is_proxy ip_address compressed is_in networks address ≡ true
      → IsTrusted entry
  unfolding is_trusted
  is_proxy-IsTrusted entry address parses proxy = ground (arith, parses, proxy)

  first_outside-IsRightmost :
      (entries : List Text) (name : Text)
      → outside_of entries ≡ some name
      → IsRightmost entries name
  unfolding first_outside
  first_outside-IsRightmost [] name h = ground (arith, h)
  first_outside-IsRightmost (entry ∷ rest) name h =
      elim (Option-cases (ip_address (candidate_of entry))) [
        | inl unread ↦ ground (arith, unread, h)
        | inr (address, parses) ↦
            elim (Bool-cases (is_proxy ip_address compressed is_in networks address)) [
              | inl proxy ↦
                  let found =
                    first_outside-IsRightmost rest name (ground (arith, parses, proxy, h)) in
                  record {
                    proxies = entry ∷ found.proxies;
                    entry = found.entry;
                    rest = found.rest;
                    address = found.address;
                    parses = found.parses;
                    outside = found.outside;
                    canonical = found.canonical;
                    shape = ap (λ more. entry ∷ more) found.shape;
                    trusted = (is_proxy-IsTrusted entry address parses proxy, found.trusted);
                  }
              | inr outside ↦ record {
                proxies = [];
                entry = entry;
                rest = rest;
                address = address;
                shape = refl;
                parses = parses;
                outside = outside;
                canonical = ground (arith, parses, outside, h);
                trusted = tt;
              }
            ]
      ]

  -- The header names a caller just when an entry of it is an address outside the trusted networks,
  -- with nothing but trusted proxies behind it; it is named by the canonical form of that address.
  pub forwarded_client_iff :
      (forwarded name : Text)
      → (forwarded_client ip_address compressed is_in networks forwarded ≡ some name)
        ↔ IsCaller forwarded name
  unfolding forwarded_client
  forwarded_client_iff forwarded name = (
    λ h.
        let found = first_outside-IsRightmost (reverse (split b',' forwarded)) name h in
        record {
          left = reverse found.rest;
          entry = found.entry;
          right = reverse found.proxies;
          address = found.address;
          entries =
              sym (reverse-reverse (split b',' forwarded))
              ∙ ap reverse found.shape
              ∙ reverse-middle found.proxies found.entry found.rest;
          parses = found.parses;
          outside = found.outside;
          canonical = found.canonical;
          behind = All-reverse IsTrusted found.proxies found.trusted;
        },
    λ c.
        ap (λ l. outside_of (reverse l)) c.entries
        ∙ ap outside_of (reverse-middle c.left c.entry c.right)
        ∙ first_outside-append (reverse c.right) (c.entry ∷ reverse c.left)
            (All-reverse IsTrusted c.right c.behind)
        ∙ first_outside-here c.entry (reverse c.left) c.address c.parses c.outside
        ∙ ap (λ n. some n) c.canonical,
  )

  IsCaller-append :
      (written appended name : Text)
      → IsCaller appended name
      → IsCaller (written ++ b',' ∷ appended) name
  IsCaller-append written appended name c = record {
    left = split b',' written ++ c.left;
    entry = c.entry;
    right = c.right;
    address = c.address;
    parses = c.parses;
    outside = c.outside;
    canonical = c.canonical;
    behind = c.behind;
    entries =
        split-append b',' written appended
        ∙ ap (λ l. split b',' written ++ l) c.entries
        ∙ sym (append_assoc (split b',' written) c.left (c.entry ∷ c.right));
  }

  claimed_by-append :
      (written appended : Text)
      → claimed_by ip_address compressed is_in networks (some (written ++ b',' ∷ appended))
        ≡ forwarded_client ip_address compressed is_in networks (written ++ b',' ∷ appended)
  claimed_by-append [] appended = refl
  claimed_by-append (c ∷ written) appended = refl

  -- A request through a trusted peer is counted under the caller that the proxies appended to its
  -- header name, whatever the caller wrote in the header before them.
  pub client_key-appended :
      (peer written appended : Text) (c : ℕ) (name : Text)
      → IsTrusted peer
      → IsCaller appended (c ∷ name)
      → client_key ip_address compressed is_in networks
          (some (record { peer = some peer; forwarded = some (written ++ b',' ∷ appended) }))
        ≡ throttle_prefix ++ c ∷ name
  unfolding client_key
  client_key-appended peer written appended c name trusted caller =
      let named =
        (forwarded_client_iff (written ++ b',' ∷ appended) (c ∷ name)).1
          (IsCaller-append written appended (c ∷ name) caller) in
      rw (trusted, claimed_by-append written appended ∙ named) refl
