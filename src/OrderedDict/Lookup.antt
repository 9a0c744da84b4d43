-- ===== src/OrderedDict/Lookup.antt =====
-- What a lookup returns after each operation, and how the operations change the length.
use bustan.Prelude.{
  ℕ, ◌+◌, ◌≤◌, ◌<◌, ◌≡◌, refl, true, false, Option, none, some, [], ◌∷◌, ◌++◌, arith, Eq, ◌==◌,
  beq_refl, length, if◌then◌else◌, Option-cases, inl, inr,
}
use bustan.OrderedDict.{OrderedDict, get, has_key, set, remove, move_to_end, trim}

abbrev pub or_else {ℓ} : {A : Type ℓ} → Option A → Option A → Option A
or_else none b = b
or_else (some a) b = some a

module _ {ℓ κ} {K : Type ℓ} {V : Type κ} ⦃e : Eq K⦄ where
  pub get-cons_same :
      (k j : K) (v : V) (d : OrderedDict K V) → (k == j) ≡ true → get j ((k, v) ∷ d) ≡ some v
  unfolding get
  get-cons_same k j v d same = rw (get, same)

  pub get-cons_ne :
      (k j : K) (v : V) (d : OrderedDict K V) → (k == j) ≡ false → get j ((k, v) ∷ d) ≡ get j d
  unfolding get
  get-cons_ne k j v d other = rw (get, other)

  pub get-set :
      (k j : K) (v : V) (d : OrderedDict K V)
      → get j (set k v d) ≡ (if k == j then some v else get j d)
  unfolding get set
  get-set k j v [] = refl
  get-set k j v ((i, w) ∷ d) =
      ground (arith, e.beq_iff i k, e.beq_iff i j, e.beq_iff k j, get-set k j v d)

  pub get-remove :
      (k j : K) (d : OrderedDict K V) → get j (remove k d) ≡ (if k == j then none else get j d)
  unfolding get remove
  get-remove k j [] = ground arith
  get-remove k j ((i, w) ∷ d) =
      ground (arith, e.beq_iff i k, e.beq_iff i j, e.beq_iff k j, get-remove k j d)

  pub get-append : (j : K) (d d' : OrderedDict K V) → get j (d ++ d') ≡ or_else (get j d) (get j d')
  unfolding get
  get-append j [] d' = refl
  get-append j ((i, w) ∷ d) d' = ground (arith, get-append j d d')

  pub move_to_end_of_get :
      (k : K) (v : V) (d : OrderedDict K V)
      → get k d ≡ some v
      → move_to_end k d ≡ remove k d ++ (k, v) ∷ []
  unfolding move_to_end
  move_to_end_of_get k v d found = rw (found, move_to_end) refl

  pub get-move_to_end : (k j : K) (d : OrderedDict K V) → get j (move_to_end k d) ≡ get j d
  get-move_to_end k j d = elim (Option-cases (get k d)) [
    | inl missing ↦ unfold move_to_end in rw (missing, move_to_end)
    | inr (v, found) ↦
        unfold move_to_end in
        rw (found, move_to_end)
          (rw get-append (rw get-remove (unfold get in ground (arith, e.beq_iff k j, found))))
  ]

  pub has_key-eq-get : (k : K) (d : OrderedDict K V) → get k d ≡ none → has_key k d ≡ false
  unfolding get has_key
  has_key-eq-get k [] h = refl
  has_key-eq-get k ((i, w) ∷ d) h = ground (arith, has_key-eq-get k d)

  pub length-remove_le : (k : K) (d : OrderedDict K V) → length (remove k d) ≤ length d
  unfolding remove
  length-remove_le k [] = omega arith
  length-remove_le k ((i, w) ∷ d) = ground (arith, length-remove_le k d)

  pub length-set-le : (k : K) (v : V) (d : OrderedDict K V) → length (set k v d) ≤ length d + 1
  unfolding set
  length-set-le k v [] = omega arith
  length-set-le k v ((i, w) ∷ d) = ground (arith, length-set-le k v d)

module _ {ℓ κ} {K : Type ℓ} {V : Type κ} where
  pub length-trim : (n : ℕ) (d : OrderedDict K V) → length (trim n d) ≤ n
  unfolding trim
  length-trim n [] = omega arith
  length-trim n (x ∷ d) = ground (arith, length-trim n d)

  -- A dictionary that fits is left alone.
  pub trim-eq_of_le : (n : ℕ) (d : OrderedDict K V) → length d ≤ n → trim n d ≡ d
  unfolding trim
  trim-eq_of_le n [] h = refl
  trim-eq_of_le n (x ∷ d) h = ground arith

module _ {ℓ κ} {K : Type ℓ} {V : Type κ} ⦃e : Eq K⦄ where
  -- The newest entry is the last to be dropped.
  pub get-trim_snoc :
      (n : ℕ) (k : K) (v : V) (d : OrderedDict K V)
      → 0 < n
      → get k d ≡ none
      → get k (trim n (d ++ (k, v) ∷ [])) ≡ some v
  unfolding get trim
  get-trim_snoc n k v [] pos absent = ground (arith, beq_refl k)
  get-trim_snoc n k v ((i, w) ∷ d) pos absent =
      ground (arith, beq_refl k, get-trim_snoc n k v d pos, get-append k d ((k, v) ∷ []))

  -- What was moved to the end survives trimming.
  pub get-trim-move_to_end :
      (n : ℕ) (k : K) (v : V) (d : OrderedDict K V)
      → 0 < n
      → get k d ≡ some v
      → get k (trim n (move_to_end k d)) ≡ some v
  unfolding move_to_end
  get-trim-move_to_end n k v d pos found =
      rw (found, move_to_end)
        (get-trim_snoc n k v (remove k d) pos (rw get-remove (rw (beq_refl k))))
