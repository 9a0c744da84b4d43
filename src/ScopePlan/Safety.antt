-- ===== src/ScopePlan/Safety.antt =====
-- What the plan promises: each effective scope is the narrowest state exposed, and a table without
-- violations has no owner that outlives state it may hold.
use mathlib.Core.Option.{some-injective}
use mathlib.Core.List.{Memᴰ}
use mathlib.Core.Bool.{true≢false}
use bustan.Prelude.{
  suc, ◌*◌, ◌≤◌, Bool, true, false, none, some, List, [], ◌∷◌, ◌==◌, nat_eq, list_eq, pair_eq,
  arith, if◌then◌else◌, length, ◌≡◌, ap, ◌∙◌, sym, ◌⊎◌, inl, inr, All, Bool-cases, Option-cases,
  subst, beq→eq, ne→beq,
}
use bustan.OrderedDict.{OrderedDict, get}
use bustan.OrderedDict.Lookup.{get-cons_same, get-cons_ne}
use bustan.OrderedDict.Distinct.{HasDistinctKeys}
use bustan.ScopePlan.Widths.{ProviderScope, transient, width, scope_eq}
use bustan.ScopePlan.{
  token_eq, BindingKey, ScopeDependency, Binding, Scopes, ScopeGraph, is_pass_through, dependencies,
  scope_of, reached_scope, reached_by, initial, pass_through, solve,
}
use bustan.ScopePlan.Narrowing.{IsBound}
use bustan.ScopePlan.Settling.{IsSettled}
use bustan.ScopePlan.Exposure.{
  Exposes, own, derived, through, IsJustified, narrowest_le, reached_derived, reached_located,
}
use bustan.ScopePlan.Exact.{settle-IsJustified, settle-Apart}
use bustan.ScopePlan.Solve.{solve_ends, get-initial, IsBound-pass_through, start_scope}

module _ (g : ScopeGraph) where
  initial_scope :
      (key : BindingKey) → get key g.bindings ≡ none → scope_of (initial g.bindings) key ≡ transient
  unfolding scope_of
  initial_scope key missing =
      let e : get key (initial g.bindings) ≡ none =
        get-initial key g.bindings ∙ ap start_scope missing in
      rw (scope_of, e)

  initial_scope_bound :
      (key : BindingKey) (b : Binding)
      → get key g.bindings ≡ some b
      → scope_of (initial g.bindings) key ≡ (if is_pass_through b then transient else b.scope)
  unfolding scope_of
  initial_scope_bound key b bound =
      let e : get key (initial g.bindings) ≡ start_scope (some b) =
        get-initial key g.bindings ∙ ap start_scope bound in
      rw (scope_of, e)

  initial-IsJustified : IsJustified g (initial g.bindings)
  initial-IsJustified key = elim (Option-cases (get key g.bindings)) [
    | inl missing ↦ inl (initial_scope key missing)
    | inr (b, bound) ↦ elim (Bool-cases (is_pass_through b)) [
      | inl passes ↦ inl (initial_scope_bound key b bound ∙ rw passes)
      | inr keeps ↦
          let e : scope_of (initial g.bindings) key ≡ b.scope =
            initial_scope_bound key b bound ∙ rw keeps in
          inr (own key b bound keeps (sym e))
    ]
  ]

  settled_at :
      (scopes : Scopes) (d : OrderedDict BindingKey Binding) (key : BindingKey) (b : Binding)
      → All (IsSettled g scopes) (pass_through d)
      → get key d ≡ some b
      → is_pass_through b ≡ true
      → reached_by g key b scopes ≡ scope_of scopes key
  unfolding pass_through
  settled_at scopes [] key b h bound passes = unfold get in cc
  settled_at scopes ((j, c) ∷ d) key b h bound passes = elim (Bool-cases (j == key)) [
    | inl same ↦
        let one : c ≡ b = some-injective c b (sym (get-cons_same j key c d same) ∙ bound) in
        let here = (rw (pass_through, ap is_pass_through one ∙ passes) at h).0 in
        subst (λ k. reached_by g k b scopes ≡ scope_of scopes k) (beq→eq same)
          (ap (λ x. reached_by g j x scopes) (sym one) ∙ here)
    | inr other ↦
        settled_at scopes d key b (settled_tail (is_pass_through c) h)
          (sym (get-cons_ne j key c d other) ∙ bound) passes
  ]
    where
      settled_tail :
          (passes : Bool)
          → All (IsSettled g scopes) (if passes then (j, c) ∷ pass_through d else pass_through d)
          → All (IsSettled g scopes) (pass_through d)
      settled_tail true h = h.1
      settled_tail false h = h

module _ (g : ScopeGraph) (distinct : HasDistinctKeys g.bindings) (scopes : Scopes)
    (solved : solve g ≡ some scopes) where
  All-IsSettled : All (IsSettled g scopes) (pass_through g.bindings)
  All-IsSettled =
      let (ended, e, settled) = solve_ends g distinct in
      subst (λ s. All (IsSettled g s) (pass_through g.bindings))
        (some-injective ended scopes (sym e ∙ solved)) settled

  not_to_settle :
      (key : BindingKey) (b : Binding) (todo : List (BindingKey × Binding))
      → get key g.bindings ≡ some b
      → is_pass_through b ≡ false
      → All (λ p. IsBound g p × (is_pass_through p.1 ≡ true)) todo
      → All (λ p. (p.0 == key) ≡ false) todo
  not_to_settle key b [] bound keeps h = tt
  not_to_settle key b ((j, c) ∷ todo) bound keeps h = (
    ne→beq λ same.
        let one : c ≡ b =
          some-injective c b (sym h.0.0 ∙ ap (λ k. get k g.bindings) same ∙ bound) in
        true≢false (sym h.0.1 ∙ ap is_pass_through one ∙ keeps),
    not_to_settle key b todo bound keeps h.1,
  )

  own_scope :
      (key : BindingKey) (b : Binding)
      → get key g.bindings ≡ some b
      → is_pass_through b ≡ false
      → scope_of scopes key ≡ b.scope
  own_scope key b bound keeps =
      settle-Apart g key (suc (3 * length g.bindings)) (pass_through g.bindings)
        (initial g.bindings) scopes
        (not_to_settle key b (pass_through g.bindings) bound keeps
          (IsBound-pass_through g distinct))
        (unfold solve in solved)
      ∙ initial_scope_bound g key b bound
      ∙ rw keeps

  solved-IsJustified : IsJustified g scopes
  solved-IsJustified =
      settle-IsJustified g (suc (3 * length g.bindings)) (pass_through g.bindings)
        (initial g.bindings) scopes (IsBound-pass_through g distinct) (initial-IsJustified g)
        (unfold solve in solved)

  reached_le :
      (key : BindingKey) (b : Binding) (d : ScopeDependency)
      → get key g.bindings ≡ some b
      → is_pass_through b ≡ true
      → Memᴰ d (dependencies g b.target)
      → width (scope_of scopes key) ≤ width (reached_scope g d.token key.0 scopes)
  reached_le key b d bound passes m =
      let settled = settled_at g scopes g.bindings key b All-IsSettled bound passes in
      let least : width (reached_by g key b scopes) ≤ width (reached_scope g d.token key.0 scopes) =
        unfold reached_by in
        narrowest_le (λ x. reached_scope g x.token key.0 scopes) d (dependencies g b.target) m in
      omega (arith, ap width settled, least)

  scope_le_exposed :
      (s : ProviderScope) (key : BindingKey)
      → Exposes g s key
      → width (scope_of scopes key) ≤ width s
  scope_le_exposed s _ (own key b bound keeps e) =
      omega (arith, ap width (own_scope key b bound keeps ∙ e))
  scope_le_exposed s _ (derived key b d bound passes m yes_derived e) = omega (
    arith,
    reached_le key b d bound passes m,
    ap width (reached_derived g d.token key.0 scopes yes_derived ∙ sym e),
  )
  scope_le_exposed s _ (through key b d next c bound passes m plain there chain) = omega (
    arith,
    reached_le key b d bound passes m,
    ap width (reached_located g d.token key.0 scopes next c plain there),
    scope_le_exposed s next chain,
  )

  -- On a binding table with distinct keys, the scope that `solve` computes for a binding is no wider
  -- than any state that a chain of pass-through bindings leads from it to, and it is the scope of
  -- one such state, or TRANSIENT.
  pub solve-eq-narrowest :
      (key : BindingKey)
      → ((s : ProviderScope) → Exposes g s key → width (scope_of scopes key) ≤ width s)
        × ((scope_of scopes key ≡ transient) ⊎ Exposes g (scope_of scopes key) key)
  solve-eq-narrowest key = (λ s chain. scope_le_exposed s key chain, solved-IsJustified key)
