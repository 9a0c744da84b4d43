-- ===== src/ScopePlan/Widths.antt =====
-- The four provider scopes and the width of the context that each caches over.
use bustan.Prelude.{
  ℕ, ◌≤◌, true, List, [], ◌∷◌, Eq, nat_beq, nat_beq_iff, ltb, if◌then◌else◌, ◌≡◌, ◌↔◌, refl, arith,
  ap,
}

pub data ProviderScope : Type 0 where
  singleton durable request transient : ProviderScope

-- `_CACHE_WIDTH`
unfoldable pub width : ProviderScope → ℕ
width request = 0
width durable = 1
width singleton = 2
width transient = 3

abbrev of_width : ℕ → ProviderScope
of_width n =
    if nat_beq n 0
    then request
    else if nat_beq n 1
    then durable
    else if nat_beq n 2
    then singleton
    else transient

of_width-width : (s : ProviderScope) → of_width (width s) ≡ s
unfolding width
of_width-width singleton = refl
of_width-width durable = refl
of_width-width request = refl
of_width-width transient = refl

pub width_injective : (s t : ProviderScope) → width s ≡ width t → s ≡ t
width_injective s t h = cc (of_width-width s, of_width-width t, ap of_width h)

pub scope_beq_iff : (s t : ProviderScope) → (nat_beq (width s) (width t) ≡ true) ↔ (s ≡ t)
scope_beq_iff s t = (
  λ h. width_injective s t ((nat_beq_iff (width s) (width t)).0 h),
  λ e. (nat_beq_iff (width s) (width t)).1 (ap width e),
)

instance abbrev pub scope_eq : Eq ProviderScope
scope_eq = record { beq = λ s t. nat_beq (width s) (width t); beq_iff = scope_beq_iff }

pub width-le : (s : ProviderScope) → width s ≤ 3
unfolding width
width-le singleton = omega arith
width-le durable = omega arith
width-le request = omega arith
width-le transient = omega arith

-- `_narrowest`: `min` by width, the first of several, TRANSIENT of none.
unfoldable pub narrowest : List ProviderScope → ProviderScope
narrowest [] = transient
narrowest (s ∷ scopes) =
    let rest = narrowest scopes in if ltb (width rest) (width s) then rest else s

pub width-transient : width transient ≡ 3
unfolding width
width-transient = refl
