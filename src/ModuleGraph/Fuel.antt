-- ===== src/ModuleGraph/Fuel.antt =====
-- A walk over the imports ends: no path of inputs that are being visited is longer than the table.
use bustan.Prelude.{
  ℕ, zero, suc, ◌+◌, ◌≡◌, ◌≢◌, ◌<◌, refl, ap, true, false, some, List, [], ◌∷◌, ◌==◌, arith,
  contains, Bool-cases, Option-cases, inl, inr, Result, ok, err, bind-err, nat_eq, list_eq, length,
}
use bustan.OrderedDict.{get, has_key}
use bustan.OrderedDict.Distinct.{HasDistinctKeys, KeysIn, length-le-KeysIn}
use bustan.ModuleGraph.Inputs.{
  ModuleInput, class_module, dynamic_module, input_eq, class_key, key_eq, ModuleMetadata, Declared,
  CompiledModule, expand_module_input, key_for,
}
use bustan.ModuleGraph.Discovery.{
  GraphError, out_of_fuel, Walk, Visiting, start, commit, finish, reject_cycle, key_visited,
  visit_imports, visit_compiled, visit_new, visit, discover_modules,
}
use bustan.ModuleGraph.Order.{IsOrdered, Keeps, visit-Keeps}
use bustan.ModuleGraph.Blame.{IsKeyed, IsKeyed-weaken, key_for-KeyFits, commit_counts}

-- The inputs of the table.
abbrev inputs : Declared → List ModuleInput
inputs [] = []
inputs ((i, metadata) ∷ table) = i ∷ inputs table

length-inputs : (table : Declared) → length (inputs table) ≡ length table
length-inputs [] = refl
length-inputs (x ∷ table) = ap suc (length-inputs table)

get-inputs :
    (table : Declared) (i : ModuleInput) (metadata : ModuleMetadata)
    → get i table ≡ some metadata
    → contains (inputs table) i ≡ true
unfolding get
get-inputs [] i metadata h = absurd (ground (arith, h))
get-inputs ((j, m) ∷ table) i metadata h = elim (Bool-cases (j == i)) [
  | inl same ↦ ground (arith, same)
  | inr other ↦ ground (arith, get-inputs table i metadata (ground (arith, h, other)))
]

-- A class that is visited has its key among those visited.
has_key-key_visited :
    (c counter : ℕ) (visiting : Visiting)
    → IsKeyed counter visiting
    → has_key (class_module c) visiting ≡ true
    → key_visited (class_key c) visiting ≡ true
unfolding has_key key_visited
has_key-key_visited c counter [] keyed h = h
has_key-key_visited c counter ((class_module d, k) ∷ visiting) keyed h =
    let deeper = has_key-key_visited c counter visiting keyed.1 in
    ground (
      arith,
      keyed.0,
      h,
      deeper,
      input_eq.beq_iff (class_module d) (class_module c),
      key_eq.beq_iff k (class_key c),
    )
has_key-key_visited c counter ((dynamic_module d, k) ∷ visiting) keyed h =
    ground (arith, has_key-key_visited c counter visiting keyed.1, h)

not_rejected :
    (input : ModuleInput) (metadata : ModuleMetadata) (counter : ℕ) (visiting : Visiting)
    → IsKeyed counter visiting
    → reject_cycle (key_for input metadata counter) input visiting ≡ false
    → has_key input visiting ≡ false
unfolding reject_cycle
not_rejected (class_module c) metadata counter visiting keyed h =
    elim (Bool-cases (has_key (class_module c) visiting)) [
      | inl found ↦ absurd (ground (arith, h, has_key-key_visited c counter visiting keyed found))
      | inr absent ↦ absent
    ]
not_rejected (dynamic_module d) metadata counter visiting keyed h = ground (arith, h)

module _ (table : Declared) where
  abbrev Suffices : Visiting → (ModuleInput → Walk → Result GraphError Walk) → Type 0
  Suffices visiting v =
      (input : ModuleInput) (w : Walk)
      → IsOrdered table [] w.key_by_input
      → IsKeyed w.counter visiting
      → v input w ≢ err out_of_fuel

  visit_imports-Suffices :
      (visiting : Visiting) (v : ModuleInput → Walk → Result GraphError Walk)
      → Suffices visiting v
      → Keeps table v
      → (l : List ModuleInput) (w : Walk) → IsOrdered table [] w.key_by_input
      → IsKeyed w.counter visiting
      → visit_imports v l w ≢ err out_of_fuel
  unfolding visit_imports
  visit_imports-Suffices visiting v enough keeps [] w ordered keyed e = ground (arith, e)
  visit_imports-Suffices visiting v enough keeps (j ∷ l) w ordered keyed e =
      elim (bind-err (v j w) (λ (after : Walk). visit_imports v l after) out_of_fuel e) [
        | inl first ↦ enough j w ordered keyed first
        | inr (mid, first, second) ↦
            let done = keeps j w mid ordered first in
            visit_imports-Suffices visiting v enough keeps l mid done.ordered
              (IsKeyed-weaken w.counter mid.counter visiting done.counts keyed) second
      ]

  -- A path of distinct inputs of the table, and the fuel that is left for it.
  record HasFuel (fuel : ℕ) (visiting : Visiting) : Type 0 where
    distinct : HasDistinctKeys visiting
    known : KeysIn (inputs table) visiting
    left : length table < fuel + length visiting

  HasFuel-pos : (visiting : Visiting) → ¬ HasFuel 0 visiting
  HasFuel-pos visiting h = omega (
    arith,
    length-le-KeysIn (inputs table) visiting h.distinct h.known,
    length-inputs table,
    h.left,
  )

  visit_compiled-Suffices :
      (fuel : ℕ) (visiting : Visiting) (input : ModuleInput) (metadata : ModuleMetadata) (w : Walk)
      → ((deeper : Visiting) → HasFuel fuel deeper → Suffices deeper (visit table fuel deeper))
      → HasFuel (suc fuel) visiting
      → get input table ≡ some metadata
      → IsOrdered table [] w.key_by_input
      → IsKeyed w.counter visiting
      → visit_compiled
          (visit table fuel)
          visiting
          input
          (record { key = key_for input metadata w.counter; metadata = metadata })
          w
        ≢ err out_of_fuel
  unfolding visit_compiled
  visit_compiled-Suffices fuel visiting input metadata w enough room found ordered keyed e =
      let key = key_for input metadata w.counter in
      let compiled : CompiledModule = record { key = key; metadata = metadata } in
      let deeper = (input, key) ∷ visiting in
      elim (Bool-cases (reject_cycle key input visiting)) [
        | inl bad ↦ ground (arith, bad, e)
        | inr good ↦ elim (Option-cases metadata.provided) [
          | inl refused ↦ ground (arith, good, refused, e)
          | inr (tokens, bound) ↦
              elim (bind-err
                (visit_imports (visit table fuel deeper) metadata.imports (commit input compiled w))
                (λ (m : Walk). ok (finish input key m)) out_of_fuel
                (ground (arith, good, bound, e))) [
                  | inl inside ↦
                      visit_imports-Suffices deeper (visit table fuel deeper)
                        (enough deeper (record {
                          distinct = (
                            not_rejected input metadata w.counter visiting keyed good,
                            room.distinct,
                          );
                          known = (get-inputs table input metadata found, room.known);
                          left = omega (arith, room.left);
                        }))
                        (visit-Keeps table fuel deeper) metadata.imports (commit input compiled w)
                        (unfold commit in ordered)
                        (
                          unfold commit in key_for-KeyFits input metadata w.counter,
                          IsKeyed-weaken w.counter (commit input compiled w).counter visiting
                              (commit_counts input compiled w) keyed,
                        )
                        inside
                  | inr (mid, walked, ended) ↦ ground (arith, ended)
                ]
        ]
      ]

  visit_new-Suffices :
      (fuel : ℕ) (visiting : Visiting) (input : ModuleInput) (w : Walk)
      → ((deeper : Visiting) → HasFuel fuel deeper → Suffices deeper (visit table fuel deeper))
      → HasFuel (suc fuel) visiting
      → IsOrdered table [] w.key_by_input
      → IsKeyed w.counter visiting
      → visit_new (visit table fuel) visiting input (expand_module_input table input w.counter) w
        ≢ err out_of_fuel
  unfolding visit_new expand_module_input
  visit_new-Suffices fuel visiting input w enough room ordered keyed e =
      elim (Option-cases (get input table)) [
        | inl missing ↦ ground (arith, missing, e)
        | inr (metadata, found) ↦
            visit_compiled-Suffices fuel visiting input metadata w enough room found ordered keyed
              (ground (arith, found, e))
      ]

  visit-Suffices :
      (fuel : ℕ) (visiting : Visiting)
      → HasFuel fuel visiting
      → Suffices visiting (visit table fuel visiting)
  unfolding visit
  visit-Suffices zero visiting room input w ordered keyed e = HasFuel-pos visiting room
  visit-Suffices (suc fuel) visiting room input w ordered keyed e =
      elim (Bool-cases (has_key input w.key_by_input)) [
        | inl known ↦ ground (arith, known, e)
        | inr new ↦
            visit_new-Suffices fuel visiting input w (visit-Suffices fuel) room ordered keyed
              (ground (arith, new, e))
      ]

  -- The walk ends on every table, with cycles or without: its fuel is never used up.
  pub discover_modules_ends : (root : ModuleInput) → discover_modules table root ≢ err out_of_fuel
  unfolding discover_modules
  discover_modules_ends root =
      visit-Suffices (suc (length table)) []
        (record { distinct = tt; known = tt; left = omega arith }) root start tt tt
