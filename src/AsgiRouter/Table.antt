-- ===== src/AsgiRouter/Table.antt =====
-- `AsgiRoute` and `AsgiRouter` of adapters/asgi/routing.py: the registered routes, the table of
-- static paths, and `resolve`. A handler is named by a number; a method is a text of ASCII letters.
use bustan.Prelude.{
  ℕ, ◌-◌, Bool, true, false, not, ◌&&◌, ◌||◌, Option, none, some, List, [], ◌∷◌, ◌++◌, ◌==◌, nat_eq,
  list_eq, Text, leb, ltb, contains, if◌then◌else◌, any, map,
}
use bustan.OrderedDict.{OrderedDict, get, set, has_key}
use bustan.AsgiRouter.Template.{Atom, Compiled, ok, err, compile_path, pieces, has_parameter}
use bustan.AsgiRouter.Pattern.{Params, match_atoms}

pub record AsgiRoute : Type 0 where
  pub path : Text
  pub methods : List Text
  pub handler : ℕ
  pub pattern : List Atom

-- `method.upper()`
abbrev upper : Text → Text
upper = map (λ c. if leb b'a' c && leb c b'z' then c - 32 else c)

abbrev pub get_method : Text
get_method = b'G' ∷ b'E' ∷ b'T' ∷ []

abbrev pub head_method : Text
head_method = b'H' ∷ b'E' ∷ b'A' ∷ b'D' ∷ []

-- Declaring GET declares HEAD.
unfoldable pub declared : List Text → List Text
declared methods =
    let upper_case = map upper methods in
    if contains upper_case get_method then upper_case ++ head_method ∷ [] else upper_case

-- `AsgiRoute.__init__`
unfoldable pub make_route : Text → List Text → ℕ → Compiled AsgiRoute
unfolding declared
make_route path methods handler = elim (compile_path path) [
  | err e ↦ err e
  | ok atoms ↦
      ok (record { path = path; methods = declared methods; handler = handler; pattern = atoms })
]

-- `AsgiRoute.match`
unfoldable pub match : AsgiRoute → Text → Option Params
match route path = match_atoms route.pattern path

abbrev pub matches : AsgiRoute → Text → Bool
matches route path = elim (match route path) [ none ↦ false | some params ↦ true ]

abbrev pub ends_with : Text → ℕ → Bool
ends_with [] c = false
ends_with (d ∷ []) c = d == c
ends_with (d ∷ e ∷ text) c = ends_with (e ∷ text) c

unfoldable pub is_static : Text → Bool
is_static path = not (has_parameter (pieces path)) && not (ends_with path 10)

-- `path.removesuffix("/")`, for a path that ends so.
abbrev but_last : Text → Text
but_last [] = []
but_last (c ∷ []) = []
but_last (c ∷ d ∷ text) = c ∷ but_last (d ∷ text)

unfoldable pub alternate_path : Text → Text
alternate_path path = if ends_with path b'/' then but_last path else path ++ b'/' ∷ []

pub data Resolution : Type 0 where
  matched : AsgiRoute → Params → Resolution
  method_mismatch : List Text → Resolution
  redirect : Text → Resolution
  unmatched : Resolution

pub record AsgiRouter : Type 0 where
  pub routes : List AsgiRoute
  pub static : OrderedDict Text (List AsgiRoute)
  pub shadowed : List Text
  pub patterned : List AsgiRoute

abbrev pub empty : AsgiRouter
empty = record { routes = []; static = []; shadowed = []; patterned = [] }

abbrev pub routes_or_none : Option (List AsgiRoute) → List AsgiRoute
routes_or_none none = []
routes_or_none (some found) = found

-- The keys of the table that a newly registered pattern also answers.
abbrev pub shadowed_by : AsgiRoute → OrderedDict Text (List AsgiRoute) → List Text
shadowed_by route [] = []
shadowed_by route ((path, found) ∷ d) =
    let rest = shadowed_by route d in if matches route path then path ∷ rest else rest

-- `_enter`
unfoldable pub enter : AsgiRoute → AsgiRouter → AsgiRouter
enter route r =
    if not (is_static route.path)
    then record r {
      patterned = r.patterned ++ route ∷ [];
      shadowed = r.shadowed ++ shadowed_by route r.static;
    }
    else if contains r.shadowed route.path
    then r
    else if not (has_key route.path r.static)
        && any (λ earlier. matches earlier route.path) r.patterned
    then record r { shadowed = r.shadowed ++ route.path ∷ [] }
    else record r {
      static = set route.path (routes_or_none (get route.path r.static) ++ route ∷ []) r.static;
    }

-- `add`, for one route and for all of them.
unfoldable pub add_route : AsgiRouter → AsgiRoute → AsgiRouter
add_route r route = enter route (record r { routes = r.routes ++ route ∷ [] })

unfoldable pub add : AsgiRouter → List AsgiRoute → AsgiRouter
add r [] = r
add r (route ∷ rest) = add (add_route r route) rest

-- A set of methods, kept in the order that `sorted` puts them.
abbrev text_ltb : Text → Text → Bool
text_ltb [] [] = false
text_ltb [] (d ∷ text) = true
text_ltb (c ∷ text) [] = false
text_ltb (c ∷ text) (d ∷ other) = ltb c d || (c == d && text_ltb text other)

abbrev insert_method : Text → List Text → List Text
insert_method method [] = method ∷ []
insert_method method (other ∷ allowed) =
    let rest = insert_method method allowed in
    if method == other
    then other ∷ allowed
    else if text_ltb method other
    then method ∷ other ∷ allowed
    else other ∷ rest

abbrev pub union_methods : List Text → List Text → List Text
union_methods allowed [] = allowed
union_methods allowed (method ∷ methods) = union_methods (insert_method method allowed) methods

-- The loop over the static routes of a path.
unfoldable pub find_static : List AsgiRoute → Text → Option AsgiRoute
find_static [] method = none
find_static (route ∷ rest) method =
    let later = find_static rest method in
    if contains route.methods method then some route else later

pub data Scan : Type 0 where
  found : AsgiRoute → Params → Scan
  missed : List Text → Scan

-- The loop over every route, in registration order.
unfoldable pub scan : List AsgiRoute → Text → Text → List Text → Scan
scan [] path method allowed = missed allowed
scan (route ∷ rest) path method allowed = elim (match route path) [
  | none ↦ scan rest path method allowed
  | some params ↦
      if contains route.methods method
      then found route params
      else scan rest path method (union_methods allowed route.methods)
]

-- What is left to try once no route took the request.
unfoldable pub conclude : List AsgiRoute → Text → Scan → Resolution
conclude routes path (found route params) = matched route params
conclude routes path (missed (method ∷ allowed)) = method_mismatch (method ∷ allowed)
conclude routes path (missed []) =
    let alternate = alternate_path path in
    if not (alternate == []) && any (λ route. matches route alternate) routes
    then redirect alternate
    else unmatched

-- `resolve`
unfoldable pub resolve : AsgiRouter → Text → Text → Resolution
resolve r path method = elim (find_static (routes_or_none (get path r.static)) method) [
  | some route ↦ matched route []
  | none ↦ conclude r.routes path (scan r.routes path method [])
]
