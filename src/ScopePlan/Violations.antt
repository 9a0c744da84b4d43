-- ===== src/ScopePlan/Violations.antt =====
-- The violations of a plan are exactly the edges that the scope rules refuse.
use mathlib.Core.Option.{none-ne-some}
use mathlib.Core.Bool.{true≢false}
use bustan.Prelude.{
  ℕ, ◌≤◌, Bool, true, false, ◌||◌, Option, none, some, List, [], ◌∷◌, ◌++◌, ◌==◌, nat_eq, list_eq,
  pair_eq, arith, ◌≡◌, ◌≢◌, ◌↔◌, refl, ap, ◌∙◌, sym, ◌⊎◌, inl, inr, All, Bool-cases, Option-cases,
  beq_refl, ne→beq, if_ind,
}
use bustan.OrderedDict.{OrderedDict}
use bustan.OrderedDict.Values.{Entries}
use bustan.OrderedDict.Distinct.{HasDistinctKeys}
use bustan.ScopePlan.Widths.{ProviderScope, singleton, durable, request, transient, width, scope_eq}
use bustan.ScopePlan.{
  token_eq, BindingKey, ScopeDependency, Binding, Scopes, ScopeGraph, is_request_derived, locate,
  dependencies, reached_scope, inquirer, cons_some, escapes_owner, violation, violations,
  owner_violations, solve,
}
use bustan.ScopePlan.Exposure.{Exposes, reached_derived, reached_located, reached_nowhere}
use bustan.ScopePlan.Safety.{solve-eq-narrowest}

-- A dependency of a module hands over state cached over the scope `s`.
abbrev pub Hands : ScopeGraph → ScopeDependency → ℕ → ProviderScope → Type 0
Hands g d m s =
    (is_request_derived d.token ≡ true) × (s ≡ request)
    ⊎ ((next : BindingKey) × (c : Binding) × (is_request_derived d.token ≡ false)
        × (locate g d.token m ≡ some (next, c))
        × Exposes g s next)

-- What the rules allow an owner to hold: never INQUIRER, and no state narrower than its own cache.
pub record MayHold (g : ScopeGraph) (m : ℕ) (owner : ProviderScope) (d : ScopeDependency)
    : Type 0 where
  pub not_inquirer : d.token ≢ inquirer
  pub outlived : (s : ProviderScope) → Hands g d m s → width owner ≤ width s

-- Of every binding that caches an instance, each dependency is one that it may hold.
abbrev pub IsLegal : ScopeGraph → OrderedDict BindingKey Binding → Type 0
IsLegal g = Entries λ key b.
    (b.scope == transient) ≡ false → All (MayHold g key.0 b.scope) (dependencies g b.target)

cons_some-nil :
    {A : Type 0} (o : Option A) (l : List A) → cons_some o l ≡ [] → (o ≡ none) × (l ≡ [])
cons_some-nil none l h = (refl, h)
cons_some-nil (some a) l h = cc

append-nil_parts : {A : Type 0} (xs ys : List A) → xs ++ ys ≡ [] → (xs ≡ []) × (ys ≡ [])
append-nil_parts [] ys h = (refl, h)
append-nil_parts (x ∷ xs) ys h = cc

-- An owner with a cache that does not escape lives no longer than what it reaches.
inside_le :
    (owner reached : ProviderScope)
    → (owner == transient) ≡ false
    → escapes_owner owner reached ≡ false
    → width owner ≤ width reached
unfolding escapes_owner width
inside_le singleton reached cached h = ground arith
inside_le durable reached cached h = ground arith
inside_le request reached cached h = omega arith
inside_le transient reached cached h = cc

escapes_transient :
    (owner reached : ProviderScope) → reached ≡ transient → escapes_owner owner reached ≡ false
unfolding escapes_owner width
escapes_transient owner reached e = rw e (
    if_ind (λ x. x ≡ false) (owner == transient || transient == transient) (λ _. refl)
      (λ h. absurd (true≢false (sym (or_true (owner == transient)) ∙ h))))
  where
    or_true : (x : Bool) → (x || true) ≡ true
    or_true true = refl
    or_true false = refl

escapes_of_le :
    (owner reached : ProviderScope)
    → width owner ≤ width reached
    → escapes_owner owner reached ≡ false
unfolding escapes_owner
escapes_of_le owner reached le = ground arith

violation-none :
    (g : ScopeGraph) (key : BindingKey) (b : Binding) (d : ScopeDependency) (scopes : Scopes)
    → violation g key b scopes d ≡ none
    → ((d.token == inquirer) ≡ false)
      × (escapes_owner b.scope (reached_scope g d.token key.0 scopes) ≡ false)
unfolding violation
violation-none g key b d scopes h = elim (Bool-cases (d.token == inquirer)) [
  | inl asks ↦ absurd (none-ne-some _ (sym (rw (violation, asks) at h)))
  | inr plain ↦ elim (Bool-cases (escapes_owner b.scope (reached_scope g d.token key.0 scopes))) [
    | inl escapes ↦ absurd (none-ne-some _ (sym (rw (violation, plain, escapes) at h)))
    | inr inside ↦ (plain, inside)
  ]
]

module _ (g : ScopeGraph) (distinct : HasDistinctKeys g.bindings) (scopes : Scopes)
    (solved : solve g ≡ some scopes) where
  reached_le-Hands :
      (d : ScopeDependency) (m : ℕ) (s : ProviderScope)
      → Hands g d m s
      → width (reached_scope g d.token m scopes) ≤ width s
  reached_le-Hands d m s (inl (yes_derived, e)) =
      omega (arith, ap width (reached_derived g d.token m scopes yes_derived ∙ sym e))
  reached_le-Hands d m s (inr (next, c, plain, there, chain)) = omega (
    arith,
    ap width (reached_located g d.token m scopes next c plain there),
    (solve-eq-narrowest g distinct scopes solved next).0 s chain,
  )

  no_violation :
      (key : BindingKey) (b : Binding) (d : ScopeDependency)
      → (b.scope == transient) ≡ false
      → violation g key b scopes d ≡ none
      → MayHold g key.0 b.scope d
  no_violation key b d cached h =
      let (plain, inside) = violation-none g key b d scopes h in
      record {
        not_inquirer =
            λ e. true≢false (sym (beq_refl inquirer) ∙ ap (λ t. t == inquirer) (sym e) ∙ plain);
        outlived = λ s hands. omega (
          arith,
          reached_le-Hands d key.0 s hands,
          inside_le b.scope (reached_scope g d.token key.0 scopes) cached inside,
        );
      }

  owner_MayHold :
      (key : BindingKey) (b : Binding) (deps : List ScopeDependency)
      → (b.scope == transient) ≡ false
      → owner_violations g key b scopes deps ≡ []
      → All (MayHold g key.0 b.scope) deps
  unfolding owner_violations
  owner_MayHold key b [] cached h = tt
  owner_MayHold key b (d ∷ deps) cached h =
      let (here, rest) =
        cons_some-nil (violation g key b scopes d) (owner_violations g key b scopes deps) h in
      (no_violation key b d cached here, owner_MayHold key b deps cached rest)

  violations-IsLegal :
      (d : OrderedDict BindingKey Binding) → violations g d scopes ≡ [] → IsLegal g d
  unfolding violations
  violations-IsLegal [] h = tt
  violations-IsLegal ((key, b) ∷ d) h = elim (Bool-cases (b.scope == transient)) [
    | inl free ↦ (
      λ cached. absurd (true≢false (sym free ∙ cached)),
      violations-IsLegal d (rw (violations, free) at h),
    )
    | inr cached ↦
        let (here, rest) =
          append-nil_parts (owner_violations g key b scopes (dependencies g b.target))
            (violations g d scopes) (rw (violations, cached) at h) in
        (λ _. owner_MayHold key b (dependencies g b.target) cached here, violations-IsLegal d rest)
  ]

  -- A dependency reaches TRANSIENT, or state that it hands over.
  reached-Hands :
      (d : ScopeDependency) (m : ℕ)
      → (reached_scope g d.token m scopes ≡ transient)
        ⊎ Hands g d m (reached_scope g d.token m scopes)
  reached-Hands d m = elim (Bool-cases (is_request_derived d.token)) [
    | inl yes_derived ↦ inr (inl (yes_derived, reached_derived g d.token m scopes yes_derived))
    | inr plain ↦ elim (Option-cases (locate g d.token m)) [
      | inl nowhere ↦ inl (reached_nowhere g d.token m scopes plain nowhere)
      | inr ((next, c), there) ↦
          let e = reached_located g d.token m scopes next c plain there in
          elim ((solve-eq-narrowest g distinct scopes solved next).1) [
            | inl open_end ↦ inl (e ∙ open_end)
            | inr chain ↦ inr (inr (next, c, plain, there, rw e chain))
          ]
    ]
  ]

  MayHold-violation :
      (key : BindingKey) (b : Binding) (d : ScopeDependency)
      → MayHold g key.0 b.scope d
      → violation g key b scopes d ≡ none
  unfolding violation
  MayHold-violation key b d h =
      let reached = reached_scope g d.token key.0 scopes in
      let inside : escapes_owner b.scope reached ≡ false = elim (reached-Hands d key.0) [
        | inl open_end ↦ escapes_transient b.scope reached open_end
        | inr hands ↦ escapes_of_le b.scope reached (h.outlived reached hands)
      ] in
      rw (violation, ne→beq h.not_inquirer, inside)

  MayHold-owner :
      (key : BindingKey) (b : Binding) (deps : List ScopeDependency)
      → All (MayHold g key.0 b.scope) deps
      → owner_violations g key b scopes deps ≡ []
  unfolding owner_violations
  MayHold-owner key b [] h = refl
  MayHold-owner key b (d ∷ deps) h =
      rw (owner_violations, MayHold-violation key b d h.0) (MayHold-owner key b deps h.1)

  IsLegal-violations :
      (d : OrderedDict BindingKey Binding) → IsLegal g d → violations g d scopes ≡ []
  unfolding violations
  IsLegal-violations [] h = refl
  IsLegal-violations ((key, b) ∷ d) h = elim (Bool-cases (b.scope == transient)) [
    | inl free ↦ rw (violations, free) (IsLegal-violations d h.1)
    | inr cached ↦
        rw (violations, cached, MayHold-owner key b (dependencies g b.target) (h.0 cached))
          (IsLegal-violations d h.1)
  ]

  -- On a binding table with distinct keys, the plan has no violation just when every binding that
  -- caches its instance holds only what it may: never INQUIRER, and nothing through which any chain
  -- of pass-through bindings leads to state of a narrower scope than its own.
  pub violations-nil_iff : (violations g g.bindings scopes ≡ []) ↔ IsLegal g g.bindings
  violations-nil_iff = (violations-IsLegal g.bindings, IsLegal-violations g.bindings)
