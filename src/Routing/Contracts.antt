-- ===== src/Routing/Contracts.antt =====
-- What the route plan reads of a `RouteContract`, and where two contracts answer one request.
use bustan.Prelude.{
  Bool, true, false, ◌||◌, ◌&&◌, List, ◌==◌, list_eq, nat_eq, Text, any, contains, if◌then◌else◌,
}
use bustan.Routing.Versioning.{is_neutral_version}

-- `ParameterSource` of runtime/params.py
pub data ParameterSource : Type 0 where
  request custom path_value query body header_value cookie ip host file files inferred :
      ParameterSource

-- `ResponseStrategy` of runtime/compiler.py
pub data ResponseStrategy : Type 0 where
  standard raw stream file_response : ResponseStrategy

-- `owner` is the qualified name of the handler, as the errors have it.
pub record RouteContract : Type 0 where
  pub method : Text
  pub path : Text
  pub versions : List Text
  pub hosts : List Text
  pub owner : Text
  pub sources : List ParameterSource
  pub strategy : ResponseStrategy

-- `_versions_overlap`
unfoldable pub versions_overlap : List Text → List Text → Bool
unfolding is_neutral_version
versions_overlap left right =
    let left_neutral = is_neutral_version left in
    let right_neutral = is_neutral_version right in
    if left_neutral && right_neutral
    then true
    else if left_neutral || right_neutral
    then false
    else any (contains right) left

-- `_route_dimensions_overlap`
unfoldable pub route_dimensions_overlap : RouteContract → RouteContract → Bool
route_dimensions_overlap left right =
    left.method == right.method
    && left.hosts == right.hosts
    && versions_overlap left.versions right.versions

abbrev pub reads_body : ParameterSource → Bool
reads_body body = true
reads_body file = true
reads_body files = true
reads_body inferred = true
reads_body _ = false

-- `_requires_raw_body`
abbrev pub requires_raw_body : RouteContract → Bool
requires_raw_body contract = any reads_body contract.sources

-- `_requires_streaming`
abbrev streams : ResponseStrategy → Bool
streams stream = true
streams _ = false

abbrev pub requires_streaming : RouteContract → Bool
requires_streaming contract = streams contract.strategy
