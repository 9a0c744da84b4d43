-- ===== src/ScopePlan/Solve.antt =====
-- `solve` is total: it ends on every binding table, with each pass-through binding settled and each
-- other binding at its own scope.
use bustan.Prelude.{
  suc, ◌*◌, ◌≤◌, true, Option, none, some, List, [], ◌∷◌, ◌==◌, nat_eq, list_eq, pair_eq, arith,
  if◌then◌else◌, length, ◌≡◌, refl, ap, ◌∙◌, sym, inl, inr, All, Bool-cases,
}
use bustan.OrderedDict.{OrderedDict, get}
use bustan.OrderedDict.Lookup.{get-cons_same, get-cons_ne}
use bustan.OrderedDict.Values.{Entries}
use bustan.OrderedDict.Distinct.{HasDistinctKeys, HasDistinctKeys-get}
use bustan.ScopePlan.Widths.{ProviderScope, transient, width, scope_eq, width-le, width-transient}
use bustan.ScopePlan.{
  token_eq, BindingKey, Binding, Scopes, ScopeGraph, is_pass_through, scope_of, reached_by, initial,
  pass_through, solve,
}
use bustan.ScopePlan.Narrowing.{IsBound}
use bustan.ScopePlan.Settling.{total, IsSettled, IsOpen, settle_ends}

abbrev pub start_scope : Option Binding → Option ProviderScope
start_scope none = none
start_scope (some b) = some (if is_pass_through b then transient else b.scope)

pub get-initial :
    (key : BindingKey) (d : OrderedDict BindingKey Binding)
    → get key (initial d) ≡ start_scope (get key d)
unfolding initial
get-initial key [] = unfold get in refl
get-initial key ((j, b) ∷ d) = elim (Bool-cases (j == key)) [
  | inl same ↦
      get-cons_same j key _ (initial d) same ∙ ap start_scope (sym (get-cons_same j key b d same))
  | inr other ↦
      get-cons_ne j key _ (initial d) other
      ∙ get-initial key d
      ∙ ap start_scope (sym (get-cons_ne j key b d other))
]

total-initial-le : (d : OrderedDict BindingKey Binding) → total (initial d) ≤ 3 * length d
unfolding initial
total-initial-le [] = omega arith
total-initial-le ((j, b) ∷ d) =
    omega (arith, total-initial-le d, width-le (if is_pass_through b then transient else b.scope))

-- What holds of every entry holds of the bindings to settle, and those are pass-through.
pub pass_through-All :
    (P : BindingKey → Binding → Type 0) (d : OrderedDict BindingKey Binding)
    → Entries P d
    → All (λ p. P p.0 p.1 × (is_pass_through p.1 ≡ true)) (pass_through d)
unfolding pass_through
pass_through-All P [] h = tt
pass_through-All P ((j, b) ∷ d) h = elim (Bool-cases (is_pass_through b)) [
  | inl passes ↦ rw (pass_through, passes) ((h.0, passes), pass_through-All P d h.1)
  | inr keeps ↦ rw (pass_through, keeps) (pass_through-All P d h.1)
]

module _ (g : ScopeGraph) (distinct : HasDistinctKeys g.bindings) where
  start_of_pass_through :
      (key : BindingKey) (b : Binding)
      → get key g.bindings ≡ some b
      → is_pass_through b ≡ true
      → get key (initial g.bindings) ≡ some transient
  start_of_pass_through key b bound passes = get-initial key g.bindings ∙ rw (bound, passes)

  start_open :
      (todo : List (BindingKey × Binding))
      → All (λ p. IsBound g p × (is_pass_through p.1 ≡ true)) todo
      → IsOpen g todo (initial g.bindings)
  start_open [] h = record { bound = tt; above = tt; held = tt }
  start_open ((key, b) ∷ todo) h =
      let rest = start_open todo h.1 in
      let start = start_of_pass_through key b h.0.0 h.0.1 in
      record {
        bound = (h.0.0, rest.bound);
        above = (
          omega (
            arith,
            width-le (reached_by g key b (initial g.bindings)),
            (let e : width (scope_of (initial g.bindings) key) ≡ width transient =
                  unfold scope_of in rw (scope_of, start) in
                e),
            width-transient,
          ),
          rest.above,
        );
        held = ((transient, start), rest.held);
      }

  pub IsBound-pass_through :
      All (λ p. IsBound g p × (is_pass_through p.1 ≡ true)) (pass_through g.bindings)
  IsBound-pass_through =
      pass_through-All (λ k b. get k g.bindings ≡ some b) g.bindings
        (HasDistinctKeys-get g.bindings distinct)

  -- On every binding table, whose keys are distinct as a dictionary's are, `solve` ends within its
  -- passes, and then each binding that keeps no instance has exactly the narrowest scope that its
  -- dependencies hand over.
  pub solve_ends :
      (scopes : Scopes) × (solve g ≡ some scopes)
      × All (IsSettled g scopes) (pass_through g.bindings)
  unfolding solve
  solve_ends =
      settle_ends g (suc (3 * length g.bindings)) (pass_through g.bindings) (initial g.bindings)
        (start_open (pass_through g.bindings) IsBound-pass_through)
        (omega (arith, total-initial-le g.bindings))
