-- ===== src/Routing/Tests.antt =====
-- A users controller of two versions, compiled in each way, and the theorems at it.
use bustan.Prelude.{
  ◌≡◌, ◌↔◌, refl, true, false, some, List, [], ◌∷◌, list_eq, nat_eq, pair_eq, Text, contains, All,
  Among, among_first, Result, ok, err, split, strip, lstrip, is_space, after, has_prefix, without,
  reverse,
}
use bustan.OrderedDict.{get, set}
use bustan.Routing.Versioning.{
  VersioningType, uri, in_header, media_type, VersioningOptions, is_neutral_version,
  version_of_parts, extract_request_version,
}
use bustan.Routing.Contracts.{
  RouteContract, standard, query, versions_overlap, route_dimensions_overlap,
}
use bustan.Routing.Registry.{
  validate, validate_from, check_patterns, conflict, canonical_path_pattern, canonical_segment,
  join_segments, strip_char, conflicting_pattern,
}
use bustan.Routing.Plan.{
  VersionedHandler, dispatching, CompiledRoute, PlanError, join_paths, unique, build_uri_paths,
  append, claim, claim_path, claim_paths, check_version_overlap, hold_version, add, add_all,
  append_groups, build, compile_route_plan, serves, dispatch, handle, overlapping_versions,
  versioned_handler,
}
use bustan.Routing.Conflicts.{IsConflictFree, validate_iff}
use bustan.Routing.Claims.{AreDistinct, served, compile_route_plan-AreDistinct}
use bustan.Routing.Dispatch.{IsVersioned}
use bustan.Routing.Answers.{compile_route_plan-dispatch}

program : Unit {0}
unfolding get set split strip lstrip is_space after has_prefix without reverse is_neutral_version
    version_of_parts extract_request_version versions_overlap route_dimensions_overlap validate
    validate_from check_patterns conflict canonical_path_pattern canonical_segment join_segments
    strip_char join_paths unique build_uri_paths append claim claim_path claim_paths
    check_version_overlap hold_version add add_all append_groups build compile_route_plan serves
    dispatch handle
program = tt

abbrev verb : Text
verb = b'G' ∷ b'E' ∷ b'T' ∷ []

abbrev one : Text
one = b'1' ∷ []

abbrev two : Text
two = b'2' ∷ []

abbrev users : Text
users = b'/' ∷ b'u' ∷ []

abbrev route_of : Text → List Text → Text → RouteContract
route_of path versions owner = record {
  method = verb;
  path = path;
  versions = versions;
  hosts = [];
  owner = owner;
  sources = query ∷ [];
  strategy = standard;
}

abbrev first_users : RouteContract
first_users = route_of users (one ∷ []) (b'a' ∷ [])

abbrev second_users : RouteContract
second_users = route_of users (two ∷ []) (b'b' ∷ [])

abbrev options_of : VersioningType → VersioningOptions
options_of kind = record {
  kind = kind;
  prefix = b'v' ∷ [];
  header = b'x' ∷ [];
  default_version = some one;
}

abbrev routes_or_nil : Result PlanError (List CompiledRoute) → List CompiledRoute
routes_or_nil (ok routes) = routes
routes_or_nil (err e) = []

abbrev both : List RouteContract
both = first_users ∷ second_users ∷ []

abbrev plan : VersioningType → List CompiledRoute
plan kind = routes_or_nil (compile_route_plan (some (options_of kind)) both)

-- The default version also has the path without a version.
uri_paths :
    served (plan uri)
    ≡ (verb, b'/' ∷ b'v' ∷ b'1' ∷ users) ∷ (verb, users) ∷ (verb, b'/' ∷ b'v' ∷ b'2' ∷ users) ∷ []
unfolding program
uri_paths = refl

overlapping :
    compile_route_plan (some (options_of in_header)) (first_users ∷ first_users ∷ [])
    ≡ err (overlapping_versions (verb, users) first_users.owner first_users.owner)
unfolding program
overlapping = refl

by_media_type :
    extract_request_version
      (λ header.
        some (b'a' ∷ b';' ∷ b' ' ∷ b'v' ∷ b'e' ∷ b'r' ∷ b's' ∷ b'i' ∷ b'o' ∷ b'n' ∷ b'=' ∷ two))
      (options_of media_type)
    ≡ some two
unfolding program
by_media_type = refl

-- Two parameters at one place of a path are one pattern.
patterns :
    validate (
      route_of (b'/' ∷ b'{' ∷ b'a' ∷ b'}' ∷ []) [] one
      ∷ route_of (b'/' ∷ b'{' ∷ b'b' ∷ b'}' ∷ []) [] two
      ∷ [])
    ≡ err (
        conflicting_pattern
          (route_of (b'/' ∷ b'{' ∷ b'a' ∷ b'}' ∷ []) [] one)
          (route_of (b'/' ∷ b'{' ∷ b'b' ∷ b'}' ∷ []) [] two))
unfolding program
patterns = refl

validate_iff_example : (validate both ≡ ok tt) ↔ IsConflictFree both
validate_iff_example = validate_iff both

compiled_uri : compile_route_plan (some (options_of uri)) both ≡ ok (plan uri)
unfolding program
compiled_uri = refl

compile_route_plan-AreDistinct_example : AreDistinct (served (plan uri))
compile_route_plan-AreDistinct_example =
    compile_route_plan-AreDistinct (some (options_of uri)) both (plan uri) compiled_uri

compiled_header : compile_route_plan (some (options_of in_header)) both ≡ ok (plan in_header)
unfolding program
compiled_header = refl

abbrev handlers : List VersionedHandler
handlers = versioned_handler first_users ∷ versioned_handler second_users ∷ []

abbrev route : CompiledRoute
route = record {
  path = users;
  methods = verb ∷ [];
  name = first_users.owner;
  handler = dispatching handlers;
  hosts = [];
  raw_body = false;
  streaming = false;
  contracts = both;
}

planned : plan in_header ≡ route ∷ []
unfolding program
planned = refl

present : Among route (plan in_header)
unfolding program
present = among_first

versioned : All IsVersioned handlers
unfolding program
versioned = (refl, (refl, tt))

compile_route_plan-dispatch_example :
    (dispatch handlers (some two) ≡ some (versioned_handler second_users)) ↔ (
      Among (versioned_handler second_users) handlers
      × (contains (versioned_handler second_users).versions two ≡ true))
compile_route_plan-dispatch_example =
    compile_route_plan-dispatch (options_of in_header) both (plan in_header) route handlers two
      (versioned_handler second_users) refl compiled_header present refl versioned
