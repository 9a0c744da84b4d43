-- ===== src/OrderedDict/Values.antt =====
-- A predicate on every entry of a dictionary survives the operations that write good entries.
use bustan.Prelude.{
  ℕ, ◌≡◌, some, [], ◌∷◌, ◌++◌, Eq, ◌==◌, ltb, length, Option-cases, inl, inr, Bool-cases, if_ind,
  subst, sym, beq→eq,
}
use mathlib.Core.Option.{some-injective}
use bustan.OrderedDict.{OrderedDict, get, set, remove, move_to_end, trim}

module _ {ℓ κ} {K : Type ℓ} {V : Type κ} ⦃e : Eq K⦄ where
  -- `P` holds of every key with its value.
  abbrev pub Entries {μ} : (K → V → Type μ) → OrderedDict K V → Type μ
  Entries P [] = Unit
  Entries P ((k, v) ∷ d) = P k v × Entries P d

  module _ {μ} (P : K → V → Type μ) where
    pub Entries-get : (k : K) (d : OrderedDict K V) (v : V) → Entries P d → get k d ≡ some v → P k v
    unfolding get
    Entries-get k [] v h found = cc
    Entries-get k ((i, w) ∷ d) v h found = elim (Bool-cases (i == k)) [
      | inl same ↦
          subst (P k) (some-injective w v (rw same at found)) (subst (λ j. P j w) (beq→eq same) h.0)
      | inr other ↦ Entries-get k d v h.1 (rw other at found)
    ]

    pub Entries-set :
        (k : K) (v : V) (d : OrderedDict K V) → P k v → Entries P d → Entries P (set k v d)
    unfolding set
    Entries-set k v [] p h = (p, tt)
    Entries-set k v ((i, w) ∷ d) p h =
        if_ind (Entries P) (i == k) (λ same. (subst (λ j. P j v) (sym (beq→eq same)) p, h.1))
          (λ _. (h.0, Entries-set k v d p h.1))

    pub Entries-remove : (k : K) (d : OrderedDict K V) → Entries P d → Entries P (remove k d)
    unfolding remove
    Entries-remove k [] h = tt
    Entries-remove k ((i, w) ∷ d) h =
        if_ind (Entries P) (i == k) (λ _. Entries-remove k d h.1)
          (λ _. (h.0, Entries-remove k d h.1))

    Entries-snoc :
        (k : K) (v : V) (d : OrderedDict K V) → P k v → Entries P d → Entries P (d ++ (k, v) ∷ [])
    Entries-snoc k v [] p h = (p, tt)
    Entries-snoc k v ((i, w) ∷ d) p h = (h.0, Entries-snoc k v d p h.1)

    pub Entries-move_to_end :
        (k : K) (d : OrderedDict K V) → Entries P d → Entries P (move_to_end k d)
    unfolding move_to_end
    Entries-move_to_end k d h = elim (Option-cases (get k d)) [
      | inl missing ↦ rw (missing, move_to_end) h
      | inr (v, found) ↦
          rw (found, move_to_end)
            (Entries-snoc k v (remove k d) (Entries-get k d v h found) (Entries-remove k d h))
    ]

    pub Entries-trim : (n : ℕ) (d : OrderedDict K V) → Entries P d → Entries P (trim n d)
    unfolding trim
    Entries-trim n [] h = tt
    Entries-trim n ((i, w) ∷ d) h =
        if_ind (Entries P) (ltb n (length ((i, w) ∷ d))) (λ _. Entries-trim n d h.1) (λ _. h)
