-- ===== src/ModuleGraph/Tests.antt =====
-- Two sets of modules, one without a cycle of imports and one with, and the theorems of the graph at
-- them.
use bustan.Prelude.{
  ℕ, ◌≡◌, ◌≢◌, ◌↔◌, ◌⊎◌, refl, Bool, true, false, Option, none, some, List, [], ◌∷◌, Result, ok,
  err, nat_eq, list_eq,
}
use bustan.OrderedDict.{get, has_key, set}
use bustan.ModuleGraph.Inputs.{
  ModuleInput, class_module, dynamic_module, input_eq, ModuleKey, class_key, instance_key, key_eq,
  ModuleMetadata, Declared, expand_module_input,
}
use bustan.ModuleGraph.Discovery.{
  GraphError, Walk, module_cycle, out_of_fuel as walk_out_of_fuel, start, key_visited, reject_cycle,
  commit, finish, visit_imports, visit_compiled, visit_new, visit, discover_modules,
}
use bustan.ModuleGraph.Order.{Reaches, here, next, IsOnCycle}
use bustan.ModuleGraph.Cycles.{discover_modules-Reaches}
use bustan.ModuleGraph.Blame.{module_cycle-IsOnCycle}
use bustan.ModuleGraph.Fuel.{discover_modules_ends}
use bustan.ModuleGraph.Visibility.{
  TokenMap, Nodes, VisibilityError, Views, imported_keys, nodes_of, own_tokens, export_origins,
  merge_import, merge_imports, resolve_node, resolve, resolve_all, merge_global,
  build_global_visibility, with_global_fallback, with_fallbacks, build_visibility_tables,
  validate_exports, validate_all,
}
use bustan.ModuleGraph.Views.{Sees, resolve_all-Sees}
use bustan.ModuleGraph.Layers.{IsGlobal, build_visibility_tables-Sees}

program : Unit {0}
unfolding get has_key set expand_module_input key_visited reject_cycle commit finish visit_imports
    visit_compiled visit_new visit discover_modules imported_keys nodes_of own_tokens export_origins
    merge_import merge_imports resolve_node resolve resolve_all merge_global build_global_visibility
    with_global_fallback with_fallbacks build_visibility_tables validate_exports validate_all
program = tt

abbrev module_of : ℕ → List ModuleInput → List ℕ → List ℕ → Bool → ModuleMetadata
module_of c imports tokens exports is_global = record {
  module_class = c;
  imports = imports;
  provided = some tokens;
  exports = exports;
  exports_module = false;
  is_global = is_global;
}

abbrev app : ModuleInput
app = class_module 1

-- The application imports users and a registration of the database, which users imports too; the
-- configuration is global.
abbrev table : Declared
table =
    (app, module_of 1 (class_module 2 ∷ dynamic_module 3 ∷ class_module 4 ∷ []) (10 ∷ []) [] false)
    ∷ (class_module 2, module_of 2 (dynamic_module 3 ∷ []) (20 ∷ []) (20 ∷ 30 ∷ []) false)
    ∷ (dynamic_module 3, module_of 3 [] (30 ∷ 31 ∷ []) (30 ∷ []) false)
    ∷ (class_module 4, module_of 4 [] (40 ∷ []) (40 ∷ []) true)
    ∷ []

abbrev walk_of : Result GraphError Walk → Walk
walk_of (ok w) = w
walk_of (err e) = start

abbrev walk : Walk
walk = walk_of (discover_modules table app)

discovered : discover_modules table app ≡ ok walk
unfolding program
discovered = refl

order : walk.ordered_keys ≡ class_key 1 ∷ class_key 2 ∷ instance_key 3 0 ∷ class_key 4 ∷ []
unfolding program
order = refl

reached : Reaches table app (dynamic_module 3)
unfolding program
reached = next {j = class_module 2} (next {j = app} here refl) refl

discover_modules-Reaches_example :
    (has_key (dynamic_module 3) walk.key_by_input ≡ true) × (¬ IsOnCycle table (dynamic_module 3))
discover_modules-Reaches_example =
    discover_modules-Reaches table app (dynamic_module 3) walk discovered reached

abbrev cyclic : Declared
cyclic =
    (class_module 0, module_of 0 (class_module 1 ∷ []) [] [] false)
    ∷ (class_module 1, module_of 1 (class_module 2 ∷ []) [] [] false)
    ∷ (class_module 2, module_of 2 (class_module 1 ∷ []) [] [] false)
    ∷ []

refused : discover_modules cyclic (class_module 0) ≡ err (module_cycle (class_module 1))
unfolding program
refused = refl

module_cycle-IsOnCycle_example :
    Reaches cyclic (class_module 0) (class_module 1) × IsOnCycle cyclic (class_module 1)
module_cycle-IsOnCycle_example =
    module_cycle-IsOnCycle cyclic (class_module 0) (class_module 1) refused

discover_modules_ends_example : discover_modules cyclic (class_module 0) ≢ err walk_out_of_fuel
discover_modules_ends_example = discover_modules_ends cyclic (class_module 0)

abbrev nodes_or_nil : Option Nodes → Nodes
nodes_or_nil none = []
nodes_or_nil (some nodes) = nodes

abbrev nodes : Nodes
nodes = nodes_or_nil (nodes_of walk.compiled_by_key walk)

abbrev views_of : Result VisibilityError Views → Views
views_of (ok views) = views
views_of (err e) = []

abbrev views : Views
views = views_of (resolve_all nodes 5 nodes [])

resolved : resolve_all nodes 5 nodes [] ≡ ok views
unfolding program
resolved = refl

known : has_key (class_key 1) nodes ≡ true
unfolding program
known = refl

resolve_all-Sees_example :
    (v : TokenMap) × (get (class_key 1) views ≡ some v)
    × ((t : ℕ) (o : ModuleKey) → (get t v ≡ some o) ↔ Sees nodes t (class_key 1) o)
resolve_all-Sees_example = resolve_all-Sees nodes 5 views resolved (class_key 1) known

abbrev visible : Views
visible = views_of (build_visibility_tables 5 nodes)

built : build_visibility_tables 5 nodes ≡ ok visible
unfolding program
built = refl

-- Users sees the configuration, and the application sees the database's one export.
users :
    (get (class_key 2) visible
      ≡ some ((20, class_key 2) ∷ (30, instance_key 3 0) ∷ (40, class_key 4) ∷ []))
    × (validate_all nodes visible ≡ ok tt)
unfolding program
users = (refl, refl)

build_visibility_tables-Sees_example :
    (base : Views) × (resolve_all nodes 5 nodes [] ≡ ok base)
    × ((k : ModuleKey)
        → has_key k nodes ≡ true
        → (v : TokenMap) × (get k visible ≡ some v)
          × ((t : ℕ) (o : ModuleKey)
              → (get t v ≡ some o) ↔ (
                  Sees nodes t k o
                  ⊎ (((p : ModuleKey) → ¬ Sees nodes t k p) × IsGlobal base t o nodes))))
build_visibility_tables-Sees_example = build_visibility_tables-Sees 5 nodes visible built
