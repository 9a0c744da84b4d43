-- ===== src/ScopePlan/Settling.antt =====
-- `solve` ends: each pass that changes anything narrows an answer, and the last changes nothing.
use mathlib.Core.Bool.{true≢false}
use mathlib.Core.Option.{some-injective}
use bustan.Prelude.{
  ℕ, zero, suc, ◌+◌, ◌≤◌, ◌<◌, Bool, true, false, some, List, [], ◌∷◌, ◌==◌, nat_eq, list_eq,
  pair_eq, arith, ◌≡◌, refl, ap, sym, ◌⊎◌, inl, inr, All, Bool-cases, subst, beq→eq,
}
use bustan.OrderedDict.{get, set}
use bustan.OrderedDict.Lookup.{get-set}
use bustan.ScopePlan.Widths.{ProviderScope, width, scope_eq}
use bustan.ScopePlan.{
  token_eq, BindingKey, Binding, Scopes, ScopeGraph, scope_of, reached_by, narrow, run_pass, settle,
}
use bustan.ScopePlan.Narrowing.{IsAbove, IsBound, set-IsAbove}

abbrev pub total : Scopes → ℕ
total [] = 0
total ((key, s) ∷ scopes) = width s + total scopes

-- The key of a binding has an answer.
abbrev pub IsHeld : Scopes → BindingKey × Binding → Type 0
IsHeld scopes p = (s : ProviderScope) × (get p.0 scopes ≡ some s)

total-set :
    (key : BindingKey) (s old : ProviderScope) (scopes : Scopes)
    → get key scopes ≡ some old
    → total (set key s scopes) + width old ≡ total scopes + width s
unfolding get set
total-set key s old [] h = cc
total-set key s old ((j, t) ∷ scopes) h = elim (Bool-cases (j == key)) [
  | inl same ↦ let e = some-injective t old (rw same at h) in rw same (omega (arith, ap width e))
  | inr other ↦ rw other (omega (arith, total-set key s old scopes (rw other at h)))
]

scope_of_held :
    (scopes : Scopes) (key : BindingKey) (s : ProviderScope)
    → get key scopes ≡ some s
    → scope_of scopes key ≡ s
unfolding scope_of
scope_of_held scopes key s h = rw (scope_of, h)

set-IsHeld :
    (key : BindingKey) (s : ProviderScope) (scopes : Scopes) (todo : List (BindingKey × Binding))
    → All (IsHeld scopes) todo
    → All (IsHeld (set key s scopes)) todo
set-IsHeld key s scopes [] h = tt
set-IsHeld key s scopes ((j, b) ∷ todo) h = (
  elim (Bool-cases (key == j)) [
    | inl same ↦ (s, rw (get-set, same))
    | inr other ↦ (h.0.0, rw (get-set, other) h.0.1)
  ],
  set-IsHeld key s scopes todo h.1,
)

module _ (g : ScopeGraph) where
  -- The answer of a binding is what it reaches.
  abbrev pub IsSettled : Scopes → BindingKey × Binding → Type 0
  IsSettled scopes p = reached_by g p.0 p.1 scopes ≡ scope_of scopes p.0

  -- What a run over some of the bindings keeps true of a list of them.
  pub record IsOpen (todo : List (BindingKey × Binding)) (scopes : Scopes) : Type 0 where
    pub bound : All (IsBound g) todo
    pub above : IsAbove g todo scopes
    pub held : All (IsHeld scopes) todo

  -- How a run from `(scopes, changed)` over `rest` ends.
  record Passed (all rest : List (BindingKey × Binding)) (scopes : Scopes) (changed : Bool)
      (after : Scopes) (changed' : Bool) : Type 0 where
    open_after : IsOpen all after
    falls : total after ≤ total scopes
    strictly : changed' ≡ true → (changed ≡ true) ⊎ (total after < total scopes)
    still : changed' ≡ false → (changed ≡ false) × (after ≡ scopes) × All (IsSettled scopes) rest

  set-IsOpen :
      (key : BindingKey) (b : Binding) (scopes : Scopes) (todo : List (BindingKey × Binding))
      → IsBound g (key, b)
      → width (reached_by g key b scopes) ≤ width (scope_of scopes key)
      → IsOpen todo scopes
      → IsOpen todo (set key (reached_by g key b scopes) scopes)
  set-IsOpen key b scopes todo bound le h = record {
    bound = h.bound;
    above = set-IsAbove g key b scopes todo bound h.bound le h.above;
    held = set-IsHeld key (reached_by g key b scopes) scopes todo h.held;
  }

  abbrev tail_open :
      {p : BindingKey × Binding} {rest : List (BindingKey × Binding)} {scopes : Scopes}
      → IsOpen (p ∷ rest) scopes
      → IsOpen rest scopes
  tail_open h = record { bound = h.bound.1; above = h.above.1; held = h.held.1 }

  -- Writing a different answer narrows the total.
  set_falls :
      (key : BindingKey) (b : Binding) (scopes : Scopes)
      → IsHeld scopes (key, b)
      → width (reached_by g key b scopes) ≤ width (scope_of scopes key)
      → (reached_by g key b scopes == scope_of scopes key) ≡ false
      → total (set key (reached_by g key b scopes) scopes) < total scopes
  set_falls key b scopes (old, e) le other =
      let same = scope_of_held scopes key old e in
      let counted = total-set key (reached_by g key b scopes) old scopes e in
      let strict : width (reached_by g key b scopes) < width (scope_of scopes key) =
        ground (arith, other) in
      omega (arith, counted, ap width same, strict)

  narrow_same :
      (key : BindingKey) (b : Binding) (scopes : Scopes) (changed : Bool)
      → (reached_by g key b scopes == scope_of scopes key) ≡ true
      → narrow g key b (scopes, changed) ≡ (scopes, changed)
  unfolding narrow
  narrow_same key b scopes changed same = rw (narrow, same)

  narrow_other :
      (key : BindingKey) (b : Binding) (scopes : Scopes) (changed : Bool)
      → (reached_by g key b scopes == scope_of scopes key) ≡ false
      → narrow g key b (scopes, changed) ≡ (set key (reached_by g key b scopes) scopes, true)
  unfolding narrow
  narrow_other key b scopes changed other = rw (narrow, other)

  run_pass_lem :
      (all rest : List (BindingKey × Binding)) (scopes : Scopes) (changed : Bool)
      → IsOpen all scopes
      → IsOpen rest scopes
      → Passed all rest scopes changed
          (run_pass g rest (scopes, changed)).0
          (run_pass g rest (scopes, changed)).1
  unfolding run_pass
  run_pass_lem all [] scopes changed h hr = record {
    open_after = h;
    falls = omega arith;
    strictly = λ e. inl e;
    still = λ e. (e, refl, tt);
  }
  run_pass_lem all ((key, b) ∷ rest) scopes changed h hr =
      let Goal = λ (state : Scopes × Bool).
        Passed all ((key, b) ∷ rest) scopes changed (run_pass g rest state).0
          (run_pass g rest state).1 in
      elim (Bool-cases (reached_by g key b scopes == scope_of scopes key)) [
        | inl same ↦
            let later = run_pass_lem all rest scopes changed h (tail_open hr) in
            subst Goal (sym (narrow_same key b scopes changed same)) (record {
              open_after = later.open_after;
              falls = later.falls;
              strictly = later.strictly;
              still = λ e.
                  let (was, kept, settled) = later.still e in (was, kept, (beq→eq same, settled));
            })
        | inr other ↦
            let after = set key (reached_by g key b scopes) scopes in
            let less = set_falls key b scopes hr.held.0 hr.above.0 other in
            let later =
              run_pass_lem all rest after true (set-IsOpen key b scopes all hr.bound.0 hr.above.0 h)
                (set-IsOpen key b scopes rest hr.bound.0 hr.above.0 (tail_open hr)) in
            subst Goal (sym (narrow_other key b scopes changed other)) (record {
              open_after = later.open_after;
              falls = omega (arith, later.falls, less);
              strictly = λ _. inr (omega (arith, later.falls, less));
              still = λ e. absurd (true≢false ((later.still e).0));
            })
      ]

  -- With more passes than answers can narrow, the loop ends, and every binding is settled.
  pub settle_ends :
      (fuel : ℕ) (todo : List (BindingKey × Binding)) (scopes : Scopes)
      → IsOpen todo scopes
      → total scopes < fuel
      → (after : Scopes) × (settle g fuel todo scopes ≡ some after) × All (IsSettled after) todo
  unfolding settle
  settle_ends zero todo scopes h enough = absurd (omega arith)
  settle_ends (suc fuel) todo scopes h enough =
      let pass = run_pass_lem todo todo scopes false h h in
      elim (Bool-cases (run_pass g todo (scopes, false)).1) [
        | inl changed ↦
            let less = strictly_less (pass.strictly changed) in
            let (after, e, settled) =
              settle_ends fuel todo (run_pass g todo (scopes, false)).0 pass.open_after
                (omega (arith, less, enough)) in
            (after, rw (settle, changed) e, settled)
        | inr still ↦
            let (_, kept, settled) = pass.still still in
            (scopes, rw (settle, still) (ap some kept), settled)
      ]
    where
      strictly_less : {m n : ℕ} → (false ≡ true) ⊎ (m < n) → m < n
      strictly_less (inl e) = cc
      strictly_less (inr less) = less
