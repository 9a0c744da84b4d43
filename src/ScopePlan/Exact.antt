-- ===== src/ScopePlan/Exact.antt =====
-- The solved scopes are exactly the narrowest state that each binding exposes.
use mathlib.Core.Option.{some-injective}
use bustan.Prelude.{
  ℕ, zero, suc, Bool, true, false, some, List, [], ◌∷◌, ◌==◌, nat_eq, list_eq, pair_eq, ◌≡◌, refl,
  ap, ◌∙◌, sym, ◌⊎◌, inl, inr, All, Bool-cases, subst, beq→eq, if_ind,
}
use bustan.ScopePlan.Widths.{transient, scope_eq}
use bustan.ScopePlan.{
  token_eq, BindingKey, Binding, Scopes, ScopeGraph, is_pass_through, scope_of, reached_by, narrow,
  run_pass, settle,
}
use bustan.ScopePlan.Narrowing.{scope_of-set, IsBound}
use bustan.ScopePlan.Exposure.{Exposes, IsJustified, reached_by_justified}

module _ (g : ScopeGraph) where
  abbrev Passes : BindingKey × Binding → Type 0
  Passes p = IsBound g p × (is_pass_through p.1 ≡ true)

  narrow-IsJustified :
      (key : BindingKey) (b : Binding) (scopes : Scopes) (changed : Bool)
      → Passes (key, b)
      → IsJustified g scopes
      → IsJustified g (narrow g key b (scopes, changed)).0
  unfolding narrow
  narrow-IsJustified key b scopes changed p h =
      if_ind (λ (state : Scopes × Bool). IsJustified g state.0)
        (reached_by g key b scopes == scope_of scopes key) (λ _. h)
        (λ _ j. rw scope_of-set (elim (Bool-cases (key == j)) [
          | inl same ↦ rw same (
              subst
                (λ k.
                  (reached_by g key b scopes ≡ transient) ⊎ Exposes g (reached_by g key b scopes) k)
                (beq→eq same) (reached_by_justified g key b scopes p.0 p.1 h))
          | inr other ↦ rw other (h j)
        ]))

  run_pass-IsJustified :
      (todo : List (BindingKey × Binding)) (scopes : Scopes) (changed : Bool)
      → All Passes todo
      → IsJustified g scopes
      → IsJustified g (run_pass g todo (scopes, changed)).0
  unfolding run_pass
  run_pass-IsJustified [] scopes changed p h = h
  run_pass-IsJustified ((key, b) ∷ todo) scopes changed p h =
      let (after, changed') = narrow g key b (scopes, changed) in
      run_pass-IsJustified todo after changed' p.1 (narrow-IsJustified key b scopes changed p.0 h)

  pub settle-IsJustified :
      (fuel : ℕ) (todo : List (BindingKey × Binding)) (scopes after : Scopes)
      → All Passes todo
      → IsJustified g scopes
      → settle g fuel todo scopes ≡ some after
      → IsJustified g after
  unfolding settle
  settle-IsJustified zero todo scopes after p h e = cc
  settle-IsJustified (suc fuel) todo scopes after p h e =
      let passed = run_pass-IsJustified todo scopes false p h in
      elim (Bool-cases (run_pass g todo (scopes, false)).1) [
        | inl changed ↦
            settle-IsJustified fuel todo (run_pass g todo (scopes, false)).0 after p passed
              (rw (settle, changed) at e)
        | inr still ↦
            subst (IsJustified g) (some-injective _ after (rw (settle, still) at e)) passed
      ]

  -- A key that is not among those to settle keeps its answer.
  abbrev Apart : BindingKey → List (BindingKey × Binding) → Type 0
  Apart j = All (λ p. (p.0 == j) ≡ false)

  narrow_apart :
      (key j : BindingKey) (b : Binding) (scopes : Scopes) (changed : Bool)
      → (key == j) ≡ false
      → scope_of (narrow g key b (scopes, changed)).0 j ≡ scope_of scopes j
  unfolding narrow
  narrow_apart key j b scopes changed other =
      if_ind (λ (state : Scopes × Bool). scope_of state.0 j ≡ scope_of scopes j)
        (reached_by g key b scopes == scope_of scopes key) (λ _. refl)
        (λ _. rw (scope_of-set, other))

  run_pass-Apart :
      (j : BindingKey) (todo : List (BindingKey × Binding)) (scopes : Scopes) (changed : Bool)
      → Apart j todo
      → scope_of (run_pass g todo (scopes, changed)).0 j ≡ scope_of scopes j
  unfolding run_pass
  run_pass-Apart j [] scopes changed a = refl
  run_pass-Apart j ((key, b) ∷ todo) scopes changed a =
      let (after, changed') = narrow g key b (scopes, changed) in
      run_pass-Apart j todo after changed' a.1 ∙ narrow_apart key j b scopes changed a.0

  pub settle-Apart :
      (j : BindingKey) (fuel : ℕ) (todo : List (BindingKey × Binding)) (scopes after : Scopes)
      → Apart j todo
      → settle g fuel todo scopes ≡ some after
      → scope_of after j ≡ scope_of scopes j
  unfolding settle
  settle-Apart j zero todo scopes after a e = cc
  settle-Apart j (suc fuel) todo scopes after a e =
      let passed = run_pass-Apart j todo scopes false a in
      elim (Bool-cases (run_pass g todo (scopes, false)).1) [
        | inl changed ↦
            settle-Apart j fuel todo (run_pass g todo (scopes, false)).0 after a
              (rw (settle, changed) at e)
            ∙ passed
        | inr still ↦
            ap (λ s. scope_of s j) (sym (some-injective _ after (rw (settle, still) at e))) ∙ passed
      ]
