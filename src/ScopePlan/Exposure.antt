-- ===== src/ScopePlan/Exposure.antt =====
-- The effective scope against its meaning: the narrowest cached state that a chain of bindings
-- without an instance of their own leads to.
use mathlib.Core.List.{Memᴰ}
use bustan.Prelude.{
  ℕ, ◌≤◌, true, false, none, some, List, [], ◌∷◌, nat_eq, list_eq, pair_eq, ltb, arith, map, ◌≡◌,
  refl, ap, ◌∙◌, sym, ◌⊎◌, inl, inr, Bool-cases, Option-cases, subst,
}
use bustan.OrderedDict.{get}
use bustan.ScopePlan.Widths.{ProviderScope, request, transient, width, scope_eq, narrowest}
use bustan.ScopePlan.{
  Token, token_eq, BindingKey, ScopeDependency, Binding, Scopes, ScopeGraph, is_request_derived,
  is_pass_through, locate, dependencies, scope_of, reached_scope, reached_by,
}
use bustan.ScopePlan.Narrowing.{IsBound}

-- A chain from a binding to state cached over the scope `s`.
pub data Exposes (g : ScopeGraph) (s : ProviderScope) : BindingKey → Type 0 where
  own :
      (key : BindingKey) (b : Binding)
      → get key g.bindings ≡ some b
      → is_pass_through b ≡ false
      → b.scope ≡ s
      → Exposes g s key
  derived :
      (key : BindingKey) (b : Binding) (d : ScopeDependency)
      → get key g.bindings ≡ some b
      → is_pass_through b ≡ true
      → Memᴰ d (dependencies g b.target)
      → is_request_derived d.token ≡ true
      → s ≡ request
      → Exposes g s key
  through :
      (key : BindingKey) (b : Binding) (d : ScopeDependency) (next : BindingKey) (c : Binding)
      → get key g.bindings ≡ some b
      → is_pass_through b ≡ true
      → Memᴰ d (dependencies g b.target)
      → is_request_derived d.token ≡ false
      → locate g d.token key.0 ≡ some (next, c)
      → Exposes g s next
      → Exposes g s key

pub narrowest_le :
    (f : ScopeDependency → ProviderScope) (d : ScopeDependency) (deps : List ScopeDependency)
    → Memᴰ d deps
    → width (narrowest (map f deps)) ≤ width (f d)
unfolding narrowest
narrowest_le f d [] m = elim m [ ]
narrowest_le f d (x ∷ deps) (Memᴰ.head e) = ground (arith, ap f e)
narrowest_le f d (x ∷ deps) (Memᴰ.tail m) = ground (arith, narrowest_le f d deps m)

narrowest_of :
    (f : ScopeDependency → ProviderScope) (deps : List ScopeDependency)
    → (narrowest (map f deps) ≡ transient)
      ⊎ ((d : ScopeDependency) × Memᴰ d deps × (narrowest (map f deps) ≡ f d))
unfolding narrowest
narrowest_of f [] = inl refl
narrowest_of f (x ∷ deps) = elim (Bool-cases (ltb (width (narrowest (map f deps))) (width (f x)))) [
  | inl later ↦ elim (narrowest_of f deps) [
    | inl none_narrow ↦ inl (rw later none_narrow)
    | inr (d, m, e) ↦ inr (d, Memᴰ.tail m, rw later e)
  ]
  | inr first ↦ inr (x, Memᴰ.head refl, rw first)
]

module _ (g : ScopeGraph) where
  -- What a token hands over, read off the table.
  pub reached_derived :
      (token : Token) (m : ℕ) (scopes : Scopes)
      → is_request_derived token ≡ true
      → reached_scope g token m scopes ≡ request
  unfolding reached_scope
  reached_derived token m scopes yes_derived = rw (reached_scope, yes_derived)

  pub reached_located :
      (token : Token) (m : ℕ) (scopes : Scopes) (key : BindingKey) (b : Binding)
      → is_request_derived token ≡ false
      → locate g token m ≡ some (key, b)
      → reached_scope g token m scopes ≡ scope_of scopes key
  unfolding reached_scope
  reached_located token m scopes key b plain there = rw (reached_scope, plain, there)

  pub reached_nowhere :
      (token : Token) (m : ℕ) (scopes : Scopes)
      → is_request_derived token ≡ false
      → locate g token m ≡ none
      → reached_scope g token m scopes ≡ transient
  unfolding reached_scope
  reached_nowhere token m scopes plain nowhere = rw (reached_scope, plain, nowhere)

  -- An answer is TRANSIENT, or state that the binding leads to.
  abbrev pub IsJustified : Scopes → Type 0
  IsJustified scopes =
      (key : BindingKey) → (scope_of scopes key ≡ transient) ⊎ Exposes g (scope_of scopes key) key

  dependency_justified :
      (key : BindingKey) (b : Binding) (d : ScopeDependency) (scopes : Scopes)
      → IsBound g (key, b)
      → is_pass_through b ≡ true
      → Memᴰ d (dependencies g b.target)
      → IsJustified scopes
      → (reached_scope g d.token key.0 scopes ≡ transient)
        ⊎ Exposes g (reached_scope g d.token key.0 scopes) key
  dependency_justified key b d scopes bound passes m h =
      elim (Bool-cases (is_request_derived d.token)) [
        | inl yes_derived ↦ inr (
            derived key b d bound passes m yes_derived
              (reached_derived d.token key.0 scopes yes_derived))
        | inr plain ↦ elim (Option-cases (locate g d.token key.0)) [
          | inl nowhere ↦ inl (reached_nowhere d.token key.0 scopes plain nowhere)
          | inr ((next, c), there) ↦
              let e = reached_located d.token key.0 scopes next c plain there in
              elim (h next) [
                | inl open_end ↦ inl (e ∙ open_end)
                | inr chain ↦ inr (rw e (through key b d next c bound passes m plain there chain))
              ]
        ]
      ]

  pub reached_by_justified :
      (key : BindingKey) (b : Binding) (scopes : Scopes)
      → IsBound g (key, b)
      → is_pass_through b ≡ true
      → IsJustified scopes
      → (reached_by g key b scopes ≡ transient) ⊎ Exposes g (reached_by g key b scopes) key
  unfolding reached_by
  reached_by_justified key b scopes bound passes h =
      elim (narrowest_of (λ d. reached_scope g d.token key.0 scopes) (dependencies g b.target)) [
        | inl open_end ↦ inl open_end
        | inr (d, m, e) ↦ elim (dependency_justified key b d scopes bound passes m h) [
          | inl open_end ↦ inl (e ∙ open_end)
          | inr chain ↦ inr (subst (λ s. Exposes g s key) (sym e) chain)
        ]
      ]
