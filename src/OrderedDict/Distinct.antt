-- ===== src/OrderedDict/Distinct.antt =====
-- A dictionary holds each key once, and every operation keeps it so.
use bustan.Prelude.{
  ℕ, ◌≤◌, ◌≡◌, refl, sym, ap, ◌∙◌, beq→eq, Bool-cases, true, false, ◌||◌, none, some, List, [], ◌∷◌,
  ◌++◌, arith, Eq, ◌==◌, beq_refl, contains, without, length-without-le, contains-without, length,
  if◌then◌else◌, inl, inr,
}
use mathlib.Core.Bool.{true≢false}
use bustan.OrderedDict.Values.{Entries}
use bustan.OrderedDict.Lookup.{get-cons_ne}
use bustan.OrderedDict.{OrderedDict, get, has_key, set, remove, move_to_end, trim}

module _ {ℓ κ} {K : Type ℓ} {V : Type κ} ⦃e : Eq K⦄ where
  abbrev pub HasDistinctKeys : OrderedDict K V → Type 0
  HasDistinctKeys [] = Unit
  HasDistinctKeys ((k, v) ∷ d) = (has_key k d ≡ false) × HasDistinctKeys d

  pub has_key-set :
      (k j : K) (v : V) (d : OrderedDict K V) → has_key j (set k v d) ≡ (k == j || has_key j d)
  unfolding has_key set
  has_key-set k j v [] = refl
  has_key-set k j v ((i, w) ∷ d) =
      ground (arith, e.beq_iff i k, e.beq_iff i j, e.beq_iff k j, has_key-set k j v d)

  has_key-remove :
      (k j : K) (d : OrderedDict K V)
      → has_key j (remove k d) ≡ (if k == j then false else has_key j d)
  unfolding has_key remove
  has_key-remove k j [] = ground arith
  has_key-remove k j ((i, w) ∷ d) =
      ground (arith, e.beq_iff i k, e.beq_iff i j, e.beq_iff k j, has_key-remove k j d)

  pub set-HasDistinctKeys :
      (k : K) (v : V) (d : OrderedDict K V) → HasDistinctKeys d → HasDistinctKeys (set k v d)
  unfolding set has_key
  set-HasDistinctKeys k v [] h = (refl, tt)
  set-HasDistinctKeys k v ((i, w) ∷ d) h =
      ground
        (arith, e.beq_iff i k, e.beq_iff k i, has_key-set k i v d, set-HasDistinctKeys k v d h.1)

  pub remove-HasDistinctKeys :
      (k : K) (d : OrderedDict K V) → HasDistinctKeys d → HasDistinctKeys (remove k d)
  unfolding remove
  remove-HasDistinctKeys k [] h = tt
  remove-HasDistinctKeys k ((i, w) ∷ d) h =
      ground (arith, has_key-remove k i d, remove-HasDistinctKeys k d h.1)

  has_key-append :
      (k : K) (d d' : OrderedDict K V) → has_key k (d ++ d') ≡ (has_key k d || has_key k d')
  unfolding has_key
  has_key-append k [] d' = refl
  has_key-append k ((i, w) ∷ d) d' = ground (arith, has_key-append k d d')

  snoc-HasDistinctKeys :
      (k : K) (v : V) (d : OrderedDict K V)
      → HasDistinctKeys d
      → has_key k d ≡ false
      → HasDistinctKeys (d ++ (k, v) ∷ [])
  unfolding has_key
  snoc-HasDistinctKeys k v [] h absent = (refl, tt)
  snoc-HasDistinctKeys k v ((i, w) ∷ d) h absent = ground (
    arith,
    e.beq_iff i k,
    e.beq_iff k i,
    has_key-append i d ((k, v) ∷ []),
    snoc-HasDistinctKeys k v d h.1,
  )

  pub move_to_end-HasDistinctKeys :
      (k : K) (d : OrderedDict K V) → HasDistinctKeys d → HasDistinctKeys (move_to_end k d)
  unfolding move_to_end
  move_to_end-HasDistinctKeys k d h =
      elim (get k d)
        as (λ o. HasDistinctKeys (elim o [ none ↦ d | some v ↦ remove k d ++ (k, v) ∷ [] ])) [
          | none ↦ h
          | some v ↦
              snoc-HasDistinctKeys k v (remove k d) (remove-HasDistinctKeys k d h)
                (ground (arith, has_key-remove k k d, beq_refl k))
        ]

  pub trim-HasDistinctKeys :
      (n : ℕ) (d : OrderedDict K V) → HasDistinctKeys d → HasDistinctKeys (trim n d)
  unfolding trim
  trim-HasDistinctKeys n [] h = tt
  trim-HasDistinctKeys n (x ∷ d) h = ground (arith, trim-HasDistinctKeys n d h.1)

  -- Every key of the dictionary is among `ks`.
  abbrev pub KeysIn : List K → OrderedDict K V → Type 0
  KeysIn ks = Entries (λ k _. contains ks k ≡ true)

  KeysIn-without :
      (k : K) (ks : List K) (d : OrderedDict K V)
      → has_key k d ≡ false
      → KeysIn ks d
      → KeysIn (without k ks) d
  unfolding has_key
  KeysIn-without k ks [] absent h = tt
  KeysIn-without k ks ((i, w) ∷ d) absent h =
      ground (arith, e.beq_iff k i, e.beq_iff i k, contains-without k i ks, KeysIn-without k ks d)

  -- Distinct keys drawn from a list are no more than the list is long.
  pub length-le-KeysIn :
      (ks : List K) (d : OrderedDict K V) → HasDistinctKeys d → KeysIn ks d → length d ≤ length ks
  length-le-KeysIn ks [] h sub = omega arith
  length-le-KeysIn ks ((k, v) ∷ d) h sub = omega (
    arith,
    length-without-le k ks sub.0,
    length-le-KeysIn (without k ks) d h.1 (KeysIn-without k ks d h.0 sub.1),
  )

  pub has_key_of_get : (k : K) (v : V) (d : OrderedDict K V) → get k d ≡ some v → has_key k d ≡ true
  unfolding get has_key
  has_key_of_get k v [] h = cc
  has_key_of_get k v ((i, w) ∷ d) h = ground (arith, has_key_of_get k v d)

  Entries-get_cons :
      (k : K) (v : V) (d rest : OrderedDict K V)
      → has_key k d ≡ false
      → Entries (λ j w. get j d ≡ some w) rest
      → Entries (λ j w. get j ((k, v) ∷ d) ≡ some w) rest
  Entries-get_cons k v d [] absent h = tt
  Entries-get_cons k v d ((j, w) ∷ rest) absent h = (
    elim (Bool-cases (k == j)) [
      | inl same ↦ absurd (
          true≢false
            (sym (has_key_of_get j w d h.0) ∙ ap (λ i. has_key i d) (sym (beq→eq same)) ∙ absent))
      | inr other ↦ get-cons_ne k j v d other ∙ h.0
    ],
    Entries-get_cons k v d rest absent h.1,
  )

  -- Where keys are distinct, every entry is what a lookup of its key finds.
  pub HasDistinctKeys-get :
      (d : OrderedDict K V) → HasDistinctKeys d → Entries (λ k v. get k d ≡ some v) d
  HasDistinctKeys-get [] h = tt
  HasDistinctKeys-get ((k, v) ∷ d) h =
      (unfold get in rw (get, beq_refl k), Entries-get_cons k v d d h.0 (HasDistinctKeys-get d h.1))
