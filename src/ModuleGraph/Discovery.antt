-- ===== src/ModuleGraph/Discovery.antt =====
-- `_discover_modules` of kernel/module/graph.py. The stack and the set of the inputs that are being
-- visited are one list, the innermost first; `finally` takes off what `visit` put on it, so that
-- it is an argument of the walk.
use bustan.Prelude.{
  ℕ, zero, suc, Bool, true, false, ◌&&◌, ◌||◌, Option, none, some, List, [], ◌∷◌, ◌++◌, ◌==◌,
  if◌then◌else◌, Result, ok, err, ◌>>=◌, length, nat_eq, list_eq,
}
use bustan.OrderedDict.{OrderedDict, set, has_key}
use bustan.ModuleGraph.Inputs.{
  ModuleInput, class_module, dynamic_module, input_eq, ModuleKey, key_eq, Declared, CompiledModule,
  expand_module_input,
}

pub data GraphError : Type 0 where
  not_a_module : ModuleInput → GraphError
  refused_module : ModuleKey → GraphError
  module_cycle : ModuleInput → GraphError
  out_of_fuel : GraphError

-- The tables that `visit` writes, and the counter of dynamic instances.
pub record Walk : Type 0 where
  pub ordered_keys : List ModuleKey
  pub compiled_by_key : OrderedDict ModuleKey CompiledModule
  pub key_by_input : OrderedDict ModuleInput ModuleKey
  pub counter : ℕ

abbrev pub start : Walk
start = record { ordered_keys = []; compiled_by_key = []; key_by_input = []; counter = 0 }

abbrev pub Visiting : Type 0
Visiting = OrderedDict ModuleInput ModuleKey

abbrev pub is_dynamic : ModuleInput → Bool
is_dynamic (class_module c) = false
is_dynamic (dynamic_module d) = true

-- `key in visiting_stack`
unfoldable pub key_visited : ModuleKey → Visiting → Bool
key_visited key [] = false
key_visited key ((i, k) ∷ visiting) = k == key || key_visited key visiting

-- `_reject_cycle`
unfoldable pub reject_cycle : ModuleKey → ModuleInput → Visiting → Bool
reject_cycle key input visiting =
    key_visited key visiting || (is_dynamic input && has_key input visiting)

-- What `visit` writes before it walks the imports, and after.
unfoldable pub commit : ModuleInput → CompiledModule → Walk → Walk
commit input compiled w = record {
  ordered_keys = w.ordered_keys ++ compiled.key ∷ [];
  compiled_by_key = set compiled.key compiled w.compiled_by_key;
  key_by_input = w.key_by_input;
  counter = if is_dynamic input then suc w.counter else w.counter;
}

unfoldable pub finish : ModuleInput → ModuleKey → Walk → Walk
finish input key w = record w { key_by_input = set input key w.key_by_input }

-- The loop over the imports, with the recursive `visit`.
unfoldable pub visit_imports :
    (ModuleInput → Walk → Result GraphError Walk) → List ModuleInput → Walk → Result GraphError Walk
visit_imports visit [] w = ok w
visit_imports visit (imported ∷ rest) w =
    visit imported w >>= λ after. visit_imports visit rest after

-- The body of `visit`, for an input that has an expansion.
unfoldable pub visit_compiled :
    (Visiting → ModuleInput → Walk → Result GraphError Walk)
    → Visiting
    → ModuleInput
    → CompiledModule
    → Walk
    → Result GraphError Walk
visit_compiled visit visiting input compiled w =
    if reject_cycle compiled.key input visiting
    then err (module_cycle input)
    else (elim compiled.metadata.provided [
      | none ↦ err (refused_module compiled.key)
      | some tokens ↦
          visit_imports (visit ((input, compiled.key) ∷ visiting)) compiled.metadata.imports
            (commit input compiled w)
          >>= λ after. ok (finish input compiled.key after)
    ])

unfoldable pub visit_new :
    (Visiting → ModuleInput → Walk → Result GraphError Walk)
    → Visiting
    → ModuleInput
    → Option CompiledModule
    → Walk
    → Result GraphError Walk
visit_new visit visiting input none w = err (not_a_module input)
visit_new visit visiting input (some compiled) w = visit_compiled visit visiting input compiled w

module _ (table : Declared) where
  -- `visit`, whose result is the key that `key_by_input` holds afterwards. Fuel bounds the depth.
  unfoldable pub visit : ℕ → Visiting → ModuleInput → Walk → Result GraphError Walk
  visit zero visiting input w = err out_of_fuel
  visit (suc fuel) visiting input w =
      let fresh =
        visit_new (visit fuel) visiting input (expand_module_input table input w.counter) w in
      if has_key input w.key_by_input then ok w else fresh

  -- `_discover_modules`: no path of imports is longer than the table.
  unfoldable pub discover_modules : ModuleInput → Result GraphError Walk
  discover_modules root = visit (suc (length table)) [] root start
