-- ===== src/Routing/Plan.antt =====
-- The `_RoutePlanBuilder` of runtime/routing.py. The handler that `create_route_handler` makes of a
-- contract is named by the contract; execution plans stand one for one beside the contracts and are
-- left out, as are the middlewares that a handler runs.
use bustan.Prelude.{
  Bool, true, false, ◌||◌, ◌&&◌, Option, none, some, List, [], ◌∷◌, ◌++◌, ◌==◌, list_eq, nat_eq,
  pair_eq, Text, any, contains, without, if◌then◌else◌, Result, ok, err, ◌>>=◌, map,
}
use bustan.OrderedDict.{OrderedDict, get, set}
use bustan.Routing.Versioning.{
  VersioningType, uri, in_header, media_type, VersioningOptions, is_neutral_version,
  extract_request_version,
}
use bustan.Routing.Contracts.{RouteContract, requires_raw_body, requires_streaming}
use bustan.Routing.Registry.{validate, RegistryError}

pub data PlanError : Type 0 where
  refused_contracts : RegistryError → PlanError
  duplicate_route : Text × Text → Text → Text → PlanError
  duplicate_neutral : Text × Text → Text → Text → PlanError
  overlapping_versions : Text × Text → Text → Text → PlanError

-- `_VersionedHandler`
pub record VersionedHandler : Type 0 where
  pub versions : List Text
  pub owner : Text
  pub contract : RouteContract

pub data RouteHandler : Type 0 where
  serving : RouteContract → RouteHandler
  dispatching : List VersionedHandler → RouteHandler

-- `CompiledAdapterRoute`
pub record CompiledRoute : Type 0 where
  pub path : Text
  pub methods : List Text
  pub name : Text
  pub handler : RouteHandler
  pub hosts : List Text
  pub raw_body : Bool
  pub streaming : Bool
  pub contracts : List RouteContract

pub record Builder : Type 0 where
  pub seen_routes : OrderedDict (Text × Text) Text
  pub routes : List CompiledRoute
  pub versioned : OrderedDict (Text × Text) (List VersionedHandler)

abbrev pub new_builder : Builder
new_builder = record { seen_routes = []; routes = []; versioned = [] }

-- `_join_paths` of kernel/utils.py
unfoldable pub join_paths : Text → Text → Text
join_paths prefix path =
    if prefix == [] then path else if path == b'/' ∷ [] then prefix else prefix ++ path

-- `tuple(dict.fromkeys(texts))`
unfoldable pub unique : List Text → List Text
unique [] = []
unique (text ∷ texts) = text ∷ without text (unique texts)

abbrev is_default : Option Text → Text → Bool
is_default none version = false
is_default (some default) version = default == version

abbrev pub versioned_paths : VersioningOptions → Text → List Text → List Text
unfolding join_paths
versioned_paths options path [] = []
versioned_paths options path (version ∷ versions) =
    let rest = versioned_paths options path versions in
    join_paths (b'/' ∷ (options.prefix ++ version)) path
    ∷ (if is_default options.default_version version then path ∷ rest else rest)

-- `_build_uri_paths`
unfoldable pub build_uri_paths : Text → List Text → VersioningOptions → List Text
unfolding is_neutral_version unique
build_uri_paths path versions options =
    if is_neutral_version versions
    then path ∷ []
    else unique (versioned_paths options path versions)

abbrev hosts_of_first : List RouteContract → List Text
hosts_of_first [] = []
hosts_of_first (contract ∷ contracts) = contract.hosts

abbrev pub method_of : RouteContract → Text
method_of contract = contract.method

-- `_append`
unfoldable pub append : Text → Text → RouteHandler → List RouteContract → Builder → Builder
append path owner handler contracts b = record b {
  routes =
      b.routes
      ++ (record {
        path = path;
        methods = unique (map method_of contracts);
        name = owner;
        handler = handler;
        hosts = hosts_of_first contracts;
        raw_body = any requires_raw_body contracts;
        streaming = any requires_streaming contracts;
        contracts = contracts;
      })
        ∷ [];
}

-- `_claim`
unfoldable pub claim : Text × Text → Text → Builder → Result PlanError Builder
claim key owner b = elim (get key b.seen_routes) [
  | some existing ↦ err (duplicate_route key existing owner)
  | none ↦ ok (record b { seen_routes = set key owner b.seen_routes })
]

unfoldable pub claim_path : RouteContract → Text → Builder → Result PlanError Builder
claim_path contract path b = claim (contract.method, path) contract.owner b >>= λ claimed.
    ok (append path contract.owner (serving contract) (contract ∷ []) claimed)

unfoldable pub claim_paths : RouteContract → List Text → Builder → Result PlanError Builder
claim_paths contract [] b = ok b
claim_paths contract (path ∷ paths) b =
    claim_path contract path b >>= λ claimed. claim_paths contract paths claimed

-- `_check_version_overlap`
unfoldable pub check_version_overlap :
    Text × Text → RouteContract → List VersionedHandler → Result PlanError (Unit {0})
check_version_overlap key contract [] = ok tt
check_version_overlap key contract (existing ∷ handlers) =
    let rest = check_version_overlap key contract handlers in
    let is_new_neutral = is_neutral_version contract.versions in
    let is_existing_neutral = is_neutral_version existing.versions in
    if is_new_neutral && is_existing_neutral
    then err (duplicate_neutral key existing.owner contract.owner)
    else if is_new_neutral || is_existing_neutral
    then rest
    else if any (contains existing.versions) contract.versions
    then err (overlapping_versions key existing.owner contract.owner)
    else rest

abbrev pub group_of : Option (List VersionedHandler) → List VersionedHandler
group_of none = []
group_of (some handlers) = handlers

abbrev pub versioned_handler : RouteContract → VersionedHandler
versioned_handler contract = record {
  versions = contract.versions;
  owner = contract.owner;
  contract = contract;
}

abbrev pub hold : Text × Text → RouteContract → List VersionedHandler → Builder → Builder
hold key contract handlers b = record b {
  versioned = set key (handlers ++ versioned_handler contract ∷ []) b.versioned;
}

unfoldable pub hold_version : RouteContract → Builder → Result PlanError Builder
hold_version contract b =
    let key : Text × Text = (contract.method, contract.path) in
    let handlers = group_of (get key b.versioned) in
    check_version_overlap key contract handlers >>= λ _. ok (hold key contract handlers b)

abbrev pub add_versioned :
    VersioningType → VersioningOptions → RouteContract → Builder → Result PlanError Builder
add_versioned uri options contract b =
    claim_paths contract (build_uri_paths contract.path contract.versions options) b
add_versioned in_header options contract b = hold_version contract b
add_versioned media_type options contract b = hold_version contract b

-- `add`
unfoldable pub add : Option VersioningOptions → RouteContract → Builder → Result PlanError Builder
add none contract b = claim_path contract contract.path b
add (some options) contract b = add_versioned options.kind options contract b

unfoldable pub add_all :
    Option VersioningOptions → List RouteContract → Builder → Result PlanError Builder
add_all versioning [] b = ok b
add_all versioning (contract ∷ contracts) b =
    add versioning contract b >>= λ after. add_all versioning contracts after

abbrev pub owner_of_first : List VersionedHandler → Text
owner_of_first [] = []
owner_of_first (handler ∷ handlers) = handler.owner

abbrev pub contract_of : VersionedHandler → RouteContract
contract_of handler = handler.contract

-- The loop of `build`: one entry for each method and path.
unfoldable pub append_groups : OrderedDict (Text × Text) (List VersionedHandler) → Builder → Builder
append_groups [] b = b
append_groups (((method, path), handlers) ∷ groups) b =
    append_groups groups
      (append path (owner_of_first handlers) (dispatching handlers) (map contract_of handlers) b)

abbrev pub kind_dispatches : VersioningType → Bool
kind_dispatches uri = false
kind_dispatches _ = true

abbrev pub is_dispatched : Option VersioningOptions → Bool
is_dispatched none = false
is_dispatched (some options) = kind_dispatches options.kind

unfoldable pub build : Option VersioningOptions → Builder → List CompiledRoute
build versioning b =
    if is_dispatched versioning then (append_groups b.versioned b).routes else b.routes

abbrev pub checked : Option VersioningOptions → List RouteContract → Result PlanError (Unit {0})
checked none contracts = elim (validate contracts) as (λ _. Result PlanError (Unit {0})) [
  | ok u ↦ ok tt
  | err e ↦ err (refused_contracts e)
]
checked (some options) contracts = ok tt

-- `compile_route_plan`
unfoldable pub compile_route_plan :
    Option VersioningOptions → List RouteContract → Result PlanError (List CompiledRoute)
compile_route_plan versioning contracts = checked versioning contracts >>= λ _.
    add_all versioning contracts new_builder >>= λ b. ok (build versioning b)

-- Whether a handler serves the version that a request asks for; `None` is in no tuple of versions.
unfoldable pub serves : VersionedHandler → Option Text → Bool
serves handler none = is_neutral_version handler.versions
serves handler (some version) =
    is_neutral_version handler.versions || contains handler.versions version

-- `_build_version_dispatcher`; `none` is the answer of a path at which nothing is registered.
unfoldable pub dispatch : List VersionedHandler → Option Text → Option VersionedHandler
dispatch [] requested = none
dispatch (entry ∷ handlers) requested =
    let rest = dispatch handlers requested in if serves entry requested then some entry else rest

-- The contract that serves a request, by its headers.
unfoldable pub handle :
    VersioningOptions → (Text → Option Text) → RouteHandler → Option RouteContract
handle options headers (serving contract) = some contract
handle options headers (dispatching handlers) =
    elim (dispatch handlers (extract_request_version headers options)) [
      | none ↦ none
      | some handler ↦ some handler.contract
    ]
