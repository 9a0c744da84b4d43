-- ===== src/Routing/Registry.antt =====
-- `RouteRegistry.validate` of runtime/registry.py. An error names the two contracts that clash.
use bustan.Prelude.{
  Bool, ◌&&◌, none, some, List, [], ◌∷◌, ◌++◌, ◌==◌, list_eq, nat_eq, pair_eq, Text, ℕ, contains,
  if◌then◌else◌, Result, ok, err, ◌>>=◌, split, has_prefix, reverse, map,
}
use bustan.OrderedDict.{OrderedDict, get, set}
use bustan.Routing.Contracts.{RouteContract, route_dimensions_overlap}

pub data RegistryError : Type 0 where
  duplicate_route conflicting_pattern : RouteContract → RouteContract → RegistryError

-- `text.strip(c)`
abbrev lstrip_char : ℕ → Text → Text
lstrip_char c [] = []
lstrip_char c (d ∷ text) = let rest = lstrip_char c text in if d == c then rest else d ∷ text

unfoldable pub strip_char : ℕ → Text → Text
strip_char c text = reverse (lstrip_char c (reverse (lstrip_char c text)))

-- `"/".join(segments)`, with a "/" before
unfoldable pub join_segments : List Text → Text
join_segments [] = []
join_segments (segment ∷ segments) = b'/' ∷ (segment ++ join_segments segments)

abbrev ends_with : ℕ → Text → Bool
unfolding has_prefix
ends_with c text = has_prefix (c ∷ []) (reverse text)

unfoldable pub canonical_segment : Text → Text
unfolding has_prefix
canonical_segment segment =
    if has_prefix (b'{' ∷ b'*' ∷ []) segment && ends_with b'}' segment
    then b'*' ∷ []
    else if has_prefix (b'{' ∷ []) segment && ends_with b'}' segment
    then b'{' ∷ b'}' ∷ []
    else if contains segment b'*'
    then b'*' ∷ []
    else segment

-- `_canonical_path_pattern`
unfoldable pub canonical_path_pattern : Text → Text
unfolding strip_char split join_segments canonical_segment
canonical_path_pattern path =
    if path == b'/' ∷ []
    then path
    else join_segments (map canonical_segment (split b'/' (strip_char b'/' path)))

abbrev pub ExactKey : Type 0
ExactKey = (Text × Text) × (List Text × List Text)

abbrev pub exact_key : RouteContract → ExactKey
exact_key contract = ((contract.method, contract.path), (contract.versions, contract.hosts))

-- Two contracts that no request can tell apart.
unfoldable pub conflict : RouteContract → RouteContract → Bool
conflict previous contract =
    route_dimensions_overlap previous contract
    && canonical_path_pattern previous.path == canonical_path_pattern contract.path

-- The loop over `seen_patterns`.
unfoldable pub check_patterns : List RouteContract → RouteContract → Result RegistryError (Unit {0})
check_patterns [] contract = ok tt
check_patterns (previous ∷ seen) contract =
    let rest = check_patterns seen contract in
    if conflict previous contract then err (conflicting_pattern previous contract) else rest

-- The loop over the contracts.
unfoldable pub validate_from :
    OrderedDict ExactKey RouteContract
    → List RouteContract
    → List RouteContract
    → Result RegistryError (Unit {0})
validate_from seen_exact seen_patterns [] = ok tt
validate_from seen_exact seen_patterns (contract ∷ contracts) =
    let rest =
      validate_from (set (exact_key contract) contract seen_exact) (seen_patterns ++ contract ∷ [])
        contracts in
    elim (get (exact_key contract) seen_exact) [
      | some previous ↦ err (duplicate_route previous contract)
      | none ↦ check_patterns seen_patterns contract >>= λ _. rest
    ]

-- `RouteRegistry.validate`
unfoldable pub validate : List RouteContract → Result RegistryError (Unit {0})
validate contracts = validate_from [] [] contracts
