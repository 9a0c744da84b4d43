-- ===== src/ModuleGraph/Visibility.antt =====
-- `_build_visibility_tables` of kernel/module/graph.py: which module declares each token that a
-- module sees. A `TokenMap` is a dictionary by token identity. What an import offers is computed
-- where it is merged, from the importer's view of it, as the table of export origins holds it; the
-- names that only an error message shows are left out.
use bustan.Prelude.{
  ℕ, zero, suc, Bool, false, not, Option, none, some, List, [], ◌∷◌, ◌==◌, nat_eq, contains,
  if◌then◌else◌, Result, ok, err, ◌>>=◌,
}
use bustan.OrderedDict.{OrderedDict, get, set, has_key}
use bustan.ModuleGraph.Inputs.{
  ModuleInput, input_eq, ModuleKey, key_eq, ModuleMetadata, CompiledModule,
}
use bustan.ModuleGraph.Discovery.{Walk}

abbrev pub TokenMap : Type 0
TokenMap = OrderedDict ℕ ModuleKey

-- What the tables read of a module: its bindings' tokens, its exports and the keys of its imports.
pub record Node : Type 0 where
  pub tokens : List ℕ
  pub exports : List ℕ
  pub exports_module : Bool
  pub imported : List ModuleKey
  pub is_global : Bool

abbrev pub Nodes : Type 0
Nodes = OrderedDict ModuleKey Node

pub data VisibilityError : Type 0 where
  missing_key : VisibilityError
  exported_module : ModuleKey → VisibilityError
  ambiguous_import : ModuleKey → ℕ → VisibilityError
  ambiguous_global : ModuleKey → ℕ → VisibilityError
  export_violation : ModuleKey → ℕ → VisibilityError
  out_of_fuel : VisibilityError

-- `imported_keys`; `none` is a `KeyError`.
unfoldable pub imported_keys :
    List ModuleInput → OrderedDict ModuleInput ModuleKey → Option (List ModuleKey)
imported_keys [] key_by_input = some []
imported_keys (i ∷ imports) key_by_input = elim (get i key_by_input) [
  | none ↦ none
  | some key ↦ elim (imported_keys imports key_by_input) [
    | none ↦ none
    | some keys ↦ some (key ∷ keys)
  ]
]

abbrev tokens_or_none : Option (List ℕ) → List ℕ
tokens_or_none none = []
tokens_or_none (some tokens) = tokens

abbrev node_of : ModuleMetadata → List ModuleKey → Node
node_of metadata keys = record {
  tokens = tokens_or_none metadata.provided;
  exports = metadata.exports;
  exports_module = metadata.exports_module;
  imported = keys;
  is_global = metadata.is_global;
}

-- The modules of a discovery, by their keys.
unfoldable pub nodes_of : OrderedDict ModuleKey CompiledModule → Walk → Option Nodes
nodes_of [] w = some []
nodes_of ((key, compiled) ∷ rest) w =
    elim (imported_keys compiled.metadata.imports w.key_by_input) [
      | none ↦ none
      | some keys ↦ elim (nodes_of rest w) [
        | none ↦ none
        | some nodes ↦ some ((key, node_of compiled.metadata keys) ∷ nodes)
      ]
    ]

-- `TokenMap((binding.token, key) for binding in ...)`
unfoldable pub own_tokens : ModuleKey → List ℕ → TokenMap → TokenMap
own_tokens key [] visible = visible
own_tokens key (t ∷ tokens) visible = own_tokens key tokens (set t key visible)

-- What a module exports, with where it comes from: the exports that it sees.
unfoldable pub export_origins : List ℕ → TokenMap → TokenMap
export_origins [] visible = []
export_origins (t ∷ exports) visible =
    let rest = export_origins exports visible in
    elim (get t visible) [ none ↦ rest | some origin ↦ (t, origin) ∷ rest ]

-- Whether a token is seen already, from another module.
abbrev pub conflicts : ModuleKey → Option ModuleKey → Bool
conflicts origin none = false
conflicts origin (some previous) = not (previous == origin)

-- `_merge_import`
unfoldable pub merge_import :
    ModuleKey → List ℕ → TokenMap → TokenMap → Result VisibilityError TokenMap
merge_import owner shadowed [] visible = ok visible
merge_import owner shadowed ((t, origin) ∷ origins) visible =
    let skipped = merge_import owner shadowed origins visible in
    let merged = merge_import owner shadowed origins (set t origin visible) in
    if contains shadowed t
    then skipped
    else if conflicts origin (get t visible)
    then err (ambiguous_import owner t)
    else merged

abbrev pub Views : Type 0
Views = OrderedDict ModuleKey TokenMap

-- What an import that was resolved offers.
abbrev pub offered : Option Node → Option TokenMap → Option TokenMap
offered (some node) (some visible) = some (export_origins node.exports visible)
offered _ _ = none

abbrev pub merge_offered :
    ModuleKey → List ℕ → Option TokenMap → TokenMap → Result VisibilityError TokenMap
merge_offered owner shadowed none visible = err missing_key
merge_offered owner shadowed (some origins) visible = merge_import owner shadowed origins visible

module _ (nodes : Nodes) where
  -- The loop over the imports, with the recursive `resolve`.
  unfoldable pub merge_imports :
      (ModuleKey → Views → Result VisibilityError Views)
      → ModuleKey
      → Node
      → List ModuleKey
      → TokenMap
      → Views
      → Result VisibilityError (TokenMap × Views)
  merge_imports resolve key node [] visible views = ok (visible, views)
  merge_imports resolve key node (j ∷ imported) visible views = resolve j views >>= λ after.
      merge_offered key node.tokens (offered (get j nodes) (get j after)) visible >>= λ merged.
      merge_imports resolve key node imported merged after

  unfoldable pub resolve_node :
      (ModuleKey → Views → Result VisibilityError Views)
      → ModuleKey
      → Option Node
      → Views
      → Result VisibilityError Views
  resolve_node resolve key none views = err missing_key
  resolve_node resolve key (some node) views =
      let own = own_tokens key node.tokens [] in
      if node.exports_module
      then err (exported_module key)
      else merge_imports resolve key node node.imported own views >>= λ merged.
          ok (set key merged.0 merged.1)

  -- `resolve`; fuel bounds the depth of the imports.
  unfoldable pub resolve : ℕ → ModuleKey → Views → Result VisibilityError Views
  resolve zero key views = err out_of_fuel
  resolve (suc fuel) key views =
      let fresh = resolve_node (resolve fuel) key (get key nodes) views in
      if has_key key views then ok views else fresh

  unfoldable pub resolve_all : ℕ → Nodes → Views → Result VisibilityError Views
  resolve_all fuel [] views = ok views
  resolve_all fuel ((key, node) ∷ rest) views =
      resolve fuel key views >>= λ after. resolve_all fuel rest after

-- `_build_global_visibility`: the exports of one global module, and of all.
unfoldable pub merge_global : ModuleKey → TokenMap → TokenMap → Result VisibilityError TokenMap
merge_global key [] visibility = ok visibility
merge_global key ((t, origin) ∷ origins) visibility =
    let rest = merge_global key origins (set t origin visibility) in
    if conflicts origin (get t visibility) then err (ambiguous_global key t) else rest

unfoldable pub build_global_visibility : Nodes → Views → TokenMap → Result VisibilityError TokenMap
build_global_visibility [] views visibility = ok visibility
build_global_visibility ((key, node) ∷ rest) views visibility =
    let passed_over = build_global_visibility rest views visibility in
    let entered = elim (get key views) as (λ _. Result VisibilityError TokenMap) [
      | none ↦ err missing_key
      | some visible ↦
          merge_global key (export_origins node.exports visible) visibility >>= λ merged.
          build_global_visibility rest views merged
    ] in
    if node.is_global then entered else passed_over

-- `_with_global_fallback`
unfoldable pub with_global_fallback : TokenMap → TokenMap → TokenMap
with_global_fallback visible [] = visible
with_global_fallback visible ((t, origin) ∷ global) =
    with_global_fallback (if has_key t visible then visible else set t origin visible) global

-- What every module sees, the global layer included; `none` is a `KeyError`.
unfoldable pub with_fallbacks : Nodes → Views → TokenMap → Option Views
with_fallbacks [] base global = some []
with_fallbacks ((key, node) ∷ rest) base global = elim (get key base) [
  | none ↦ none
  | some view ↦ elim (with_fallbacks rest base global) [
    | none ↦ none
    | some visible ↦ some ((key, with_global_fallback view global) ∷ visible)
  ]
]

abbrev pub or_missing : Option Views → Result VisibilityError Views
or_missing none = err missing_key
or_missing (some visible) = ok visible

-- `_build_visibility_tables`, its table `visible`
unfoldable pub build_visibility_tables : ℕ → Nodes → Result VisibilityError Views
build_visibility_tables fuel nodes = resolve_all nodes fuel nodes [] >>= λ base.
    build_global_visibility nodes base [] >>= λ global.
    or_missing (with_fallbacks nodes base global)

-- `_validate_exports`
unfoldable pub validate_exports : ModuleKey → List ℕ → TokenMap → Result VisibilityError (Unit {0})
validate_exports key [] visible = ok tt
validate_exports key (t ∷ exports) visible =
    let rest = validate_exports key exports visible in
    if has_key t visible then rest else err (export_violation key t)

-- The loop of `build_module_graph`, without what it says of controllers.
unfoldable pub validate_all : Nodes → Views → Result VisibilityError (Unit {0})
validate_all [] visible = ok tt
validate_all ((key, node) ∷ rest) visible = elim (get key visible) [
  | none ↦ err missing_key
  | some view ↦ validate_exports key node.exports view >>= λ _. validate_all rest visible
]
