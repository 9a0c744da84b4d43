-- ===== src/ScopePlan/Narrowing.antt =====
-- One step of `solve` never widens an answer: the order on scopes, and what a step keeps.
use mathlib.Core.Option.{some-injective}
use bustan.Prelude.{
  ℕ, ◌≤◌, some, List, [], ◌∷◌, ◌==◌, nat_eq, list_eq, pair_eq, arith, if◌then◌else◌, map, ◌≡◌, ap,
  ◌∙◌, sym, inl, inr, All, Bool-cases, Option-cases, subst, beq→eq,
}
use bustan.OrderedDict.{get, set}
use bustan.OrderedDict.Lookup.{get-set}
use bustan.ScopePlan.Widths.{ProviderScope, width, scope_eq, narrowest}
use bustan.ScopePlan.{
  Token, token_eq, BindingKey, ScopeDependency, Binding, Scopes, ScopeGraph, is_request_derived,
  locate, dependencies, scope_of, reached_scope, reached_by,
}

pub scope_of-set :
    (key j : BindingKey) (s : ProviderScope) (scopes : Scopes)
    → scope_of (set key s scopes) j ≡ (if key == j then s else scope_of scopes j)
unfolding scope_of
scope_of-set key j s scopes = elim (Bool-cases (key == j)) [
  | inl same ↦ rw (scope_of, get-set, same)
  | inr other ↦ rw (scope_of, get-set, other)
]

-- Each answer of `after` is at most as wide.
abbrev pub Narrower : Scopes → Scopes → Type 0
Narrower after before =
    (key : BindingKey) → width (scope_of after key) ≤ width (scope_of before key)

narrowest_mono :
    (f h : ScopeDependency → ProviderScope) (deps : List ScopeDependency)
    → ((d : ScopeDependency) → width (f d) ≤ width (h d))
    → width (narrowest (map f deps)) ≤ width (narrowest (map h deps))
unfolding narrowest
narrowest_mono f h [] le = omega arith
narrowest_mono f h (d ∷ deps) le = ground (arith, le d, narrowest_mono f h deps le)

module _ (g : ScopeGraph) where
  pub reached_scope_mono :
      (after before : Scopes) (token : Token) (m : ℕ)
      → Narrower after before
      → width (reached_scope g token m after) ≤ width (reached_scope g token m before)
  unfolding reached_scope
  reached_scope_mono after before token m le = elim (Bool-cases (is_request_derived token)) [
    | inl derived ↦ rw derived (omega arith)
    | inr plain ↦ elim (Option-cases (locate g token m)) [
      | inl nowhere ↦ rw (plain, nowhere) (omega arith)
      | inr ((key, b), there) ↦ rw (plain, there) (le key)
    ]
  ]

  pub reached_by_mono :
      (after before : Scopes) (key : BindingKey) (b : Binding)
      → Narrower after before
      → width (reached_by g key b after) ≤ width (reached_by g key b before)
  unfolding reached_by
  reached_by_mono after before (m, t) b le =
      narrowest_mono (λ d. reached_scope g d.token m after) (λ d. reached_scope g d.token m before)
        (dependencies g b.target) (λ d. reached_scope_mono after before d.token m le)

  -- Every binding still to settle reaches no wider than its answer so far.
  abbrev pub IsAbove : List (BindingKey × Binding) → Scopes → Type 0
  IsAbove todo scopes =
      All (λ p. width (reached_by g p.0 p.1 scopes) ≤ width (scope_of scopes p.0)) todo

  -- Writing what a binding reaches narrows the answers, and keeps the others above what they reach.
  pub set-Narrower :
      (key : BindingKey) (s : ProviderScope) (scopes : Scopes)
      → width s ≤ width (scope_of scopes key)
      → Narrower (set key s scopes) scopes
  set-Narrower key s scopes le j = rw scope_of-set (elim (Bool-cases (key == j)) [
    | inl same ↦ rw same (subst (λ k. width s ≤ width (scope_of scopes k)) (beq→eq same) le)
    | inr other ↦ rw other (omega arith)
  ])

  -- A binding of the table, under its key.
  abbrev pub IsBound : BindingKey × Binding → Type 0
  IsBound p = get p.0 g.bindings ≡ some p.1

  pub set-IsAbove :
      (key : BindingKey) (b : Binding) (scopes : Scopes) (todo : List (BindingKey × Binding))
      → IsBound (key, b)
      → All IsBound todo
      → width (reached_by g key b scopes) ≤ width (scope_of scopes key)
      → IsAbove todo scopes
      → IsAbove todo (set key (reached_by g key b scopes) scopes)
  set-IsAbove key b scopes [] bound bounds le h = tt
  set-IsAbove key b scopes ((j, c) ∷ todo) bound bounds le h =
      let s = reached_by g key b scopes in
      let narrower = set-Narrower key s scopes le in
      let falls = reached_by_mono (set key s scopes) scopes j c narrower in
      let own : width (reached_by g j c (set key s scopes))
          ≤ width (scope_of (set key s scopes) j) =
        elim (Bool-cases (key == j)) [
          | inl same ↦
              let one : b ≡ c =
                some-injective b c
                  (sym bound ∙ ap (λ k. get k g.bindings) (beq→eq same) ∙ bounds.0) in
              let here : reached_by g j c scopes ≡ s =
                ap (λ k. reached_by g k c scopes) (sym (beq→eq same))
                ∙ ap (λ x. reached_by g key x scopes) (sym one) in
              rw scope_of-set (rw same (omega (arith, falls, ap width here)))
          | inr other ↦ rw scope_of-set (rw other (omega (arith, falls, h.0)))
        ] in
      (own, set-IsAbove key b scopes todo bound bounds.1 le h.1)
