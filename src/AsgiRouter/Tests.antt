-- ===== src/AsgiRouter/Tests.antt =====
-- Templates and routers on small inputs, and the router's theorem at them.
use Prim.Native.Char.{code}
use Prim.Native.String.{String}
use bustan.Prelude.{ℕ, ◌≡◌, refl, Text, List, [], ◌∷◌, none, some, All, map, nat_eq, list_eq}
use bustan.OrderedDict.{get, set, has_key}
use bustan.AsgiRouter.Template.{
  Atom, char, group, ok, err, unknown_converter, malformed_parameter, redefined_group,
  int_converter, float_converter, str_converter, path_converter, is_name_start, is_name_char,
  span_name, read_parameter, pieces_from, pieces, has_parameter, unparsed, converter_of,
  compile_pieces, compile_path,
}
use bustan.AsgiRouter.Pattern.{lengths, match_atoms}
use bustan.AsgiRouter.Table.{
  AsgiRoute, declared, make_route, match, is_static, alternate_path, matched, method_mismatch,
  redirect, unmatched, empty, enter, add_route, add, find_static, scan, conclude, resolve,
  get_method, head_method,
}
use bustan.AsgiRouter.Static.{IsBuilt}
use bustan.AsgiRouter.Order.{resolve-eq-registration_order}

abbrev codes : String → Text
codes String.[] = []
codes (String.◌∷◌ c s) = code c ∷ codes s

program : Unit {0}
unfolding get set has_key read_parameter span_name is_name_start is_name_char pieces_from pieces
    has_parameter unparsed converter_of compile_pieces compile_path lengths match_atoms declared
    make_route match is_static alternate_path enter add_route add find_static scan conclude resolve
program = tt

unknown : compile_path (codes "/a/{x:nat}") ≡ err unknown_converter
unfolding program
unknown = refl

malformed : compile_path (codes "/a/{x:int}/{") ≡ err malformed_parameter
unfolding program
malformed = refl

redefined : compile_path (codes "/{x}/{x}") ≡ err redefined_group
unfolding program
redefined = refl

abbrev item_atoms : List Atom
item_atoms =
    char b'/'
    ∷ group (codes "id") int_converter
    ∷ char b'/'
    ∷ group (codes "rest") path_converter
    ∷ []

compiles : compile_path (codes "/{id:int}/{rest:path}") ≡ ok item_atoms
unfolding program
compiles = refl

captures :
    match_atoms item_atoms (codes "/42/a/b")
    ≡ some ((codes "id", codes "42") ∷ (codes "rest", codes "a/b") ∷ [])
unfolding program
captures = refl

rejects : match_atoms item_atoms (codes "/4x/a") ≡ none
unfolding program
rejects = refl

float_backtracks :
    match_atoms (group (codes "f") float_converter ∷ char b'.' ∷ char b'5' ∷ []) (codes "1.5")
    ≡ some ((codes "f", codes "1") ∷ [])
unfolding program
float_backtracks = refl

abbrev plain_route : Text → ℕ → AsgiRoute
plain_route path handler = record {
  path = path;
  methods = get_method ∷ head_method ∷ [];
  handler = handler;
  pattern = map char path;
}

abbrev any_route : AsgiRoute
any_route = record {
  path = codes "/{name}";
  methods = get_method ∷ head_method ∷ [];
  handler = 1;
  pattern = char b'/' ∷ group (codes "name") str_converter ∷ [];
}

abbrev routes : List AsgiRoute
routes =
    plain_route (codes "/a") 0
    ∷ any_route
    ∷ plain_route (codes "/b") 2
    ∷ plain_route (codes "/x/y") 3
    ∷ []

routes-IsBuilt : All IsBuilt routes
unfolding program
routes-IsBuilt = (refl, (refl, (refl, (refl, tt))))

first_wins :
    resolve (add empty routes) (codes "/b") get_method
    ≡ matched any_route ((codes "name", codes "b") ∷ [])
unfolding program
first_wins = refl

wrong_method :
    resolve (add empty routes) (codes "/a") (codes "PUT")
    ≡ method_mismatch (get_method ∷ head_method ∷ [])
unfolding program
wrong_method = refl

trailing_slash : resolve (add empty routes) (codes "/x/y/") get_method ≡ redirect (codes "/x/y")
unfolding program
trailing_slash = refl

nothing : resolve (add empty routes) (codes "/x/y/z") get_method ≡ unmatched
unfolding program
nothing = refl

resolve-eq-registration_order_example :
    resolve (add empty routes) (codes "/b") get_method
    ≡ conclude routes (codes "/b") (scan routes (codes "/b") get_method [])
resolve-eq-registration_order_example =
    resolve-eq-registration_order routes (codes "/b") get_method routes-IsBuilt
