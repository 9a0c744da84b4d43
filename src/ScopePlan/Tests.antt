-- ===== src/ScopePlan/Tests.antt =====
-- Small binding tables, their plans, and the theorems at them.
use bustan.Prelude.{ℕ, ◌≡◌, ◌≤◌, ◌⊎◌, ◌↔◌, refl, [], ◌∷◌, some, All, nat_eq, pair_eq}
use bustan.OrderedDict.{OrderedDict, get, set, has_key}
use bustan.OrderedDict.Distinct.{HasDistinctKeys}
use bustan.ScopePlan.Widths.{ProviderScope, singleton, request, transient, width, narrowest}
use bustan.ScopePlan.{
  token_eq, named, BindingKey, ScopeDependency, Binding, class_target, existing_target, Scopes,
  ScopeGraph, is_request_derived, is_pass_through, locate, dependencies, scope_of, reached_scope,
  reached_by, initial, pass_through, narrow, run_pass, settle, solve, escapes_owner, violation,
  owner_violations, violations,
}
use bustan.ScopePlan.Exposure.{Exposes}
use bustan.ScopePlan.Solve.{solve_ends}
use bustan.ScopePlan.Settling.{IsSettled}
use bustan.ScopePlan.Safety.{solve-eq-narrowest}
use bustan.ScopePlan.Violations.{IsLegal, violations-nil_iff}

abbrev bind : ProviderScope → ℕ → Binding
bind scope c = record { scope = scope; target = class_target c }

abbrev needs : ℕ → ScopeDependency
needs n = record { token = named n; site = "parameter" }

-- Module 0 declares tokens 1 to 4: a singleton on an alias, the alias, a transient, a request-scoped
-- provider that the transient asks for.
abbrev table : ProviderScope → OrderedDict BindingKey Binding
table owner =
    ((0, named 1), bind owner 1)
    ∷ ((0, named 2), record { scope = transient; target = existing_target (named 3) })
    ∷ ((0, named 3), bind transient 3)
    ∷ ((0, named 4), bind request 4)
    ∷ []

abbrev graph : ProviderScope → ScopeGraph
graph owner = record {
  bindings = table owner;
  visibility = (0, (named 1, 0) ∷ (named 2, 0) ∷ (named 3, 0) ∷ (named 4, 0) ∷ []) ∷ [];
  class_dependencies = (1, needs 2 ∷ []) ∷ (3, needs 4 ∷ []) ∷ [];
}

abbrev plan : ProviderScope → Scopes
plan owner =
    ((0, named 1), owner)
    ∷ ((0, named 2), request)
    ∷ ((0, named 3), request)
    ∷ ((0, named 4), request)
    ∷ []

program : Unit {0}
unfolding get set has_key width narrowest is_request_derived is_pass_through locate dependencies
    scope_of reached_scope reached_by initial pass_through narrow run_pass settle solve
    escapes_owner violation owner_violations violations
program = tt

solved : solve (graph singleton) ≡ some (plan singleton)
unfolding program
solved = refl

solved_request : solve (graph request) ≡ some (plan request)
unfolding program
solved_request = refl

refused :
    violations (graph singleton) (table singleton) (plan singleton)
    ≡ record {
      owner = (0, named 1);
      owner_scope = singleton;
      dependency = named 2;
      reached = some request;
    }
      ∷ []
unfolding program
refused = refl

distinct : HasDistinctKeys (table singleton)
unfolding program
distinct = (refl, (refl, (refl, (refl, tt))))

distinct_request : HasDistinctKeys (table request)
unfolding program
distinct_request = (refl, (refl, (refl, (refl, tt))))

solve_ends_example :
    (scopes : Scopes) × (solve (graph singleton) ≡ some scopes)
    × All (IsSettled (graph singleton) scopes) (pass_through (table singleton))
solve_ends_example = solve_ends (graph singleton) distinct

solve-eq-narrowest_example :
    ((s : ProviderScope)
      → Exposes (graph singleton) s (0, named 2)
      → width (scope_of (plan singleton) (0, named 2)) ≤ width s)
    × ((scope_of (plan singleton) (0, named 2) ≡ transient)
        ⊎ Exposes (graph singleton) (scope_of (plan singleton) (0, named 2)) (0, named 2))
solve-eq-narrowest_example =
    solve-eq-narrowest (graph singleton) distinct (plan singleton) solved (0, named 2)

violations-nil_iff_example :
    (violations (graph request) (table request) (plan request) ≡ [])
    ↔ IsLegal (graph request) (table request)
violations-nil_iff_example =
    violations-nil_iff (graph request) distinct_request (plan request) solved_request
