-- ===== src/ModuleGraph/Cycles.antt =====
-- The imports that a discovery accepts have no cycle, and those that it refuses for one have one.
use bustan.Prelude.{
  ℕ, suc, ◌≡◌, ◌≤◌, ◌<◌, ◌⊎◌, sym, true, false, List, [], ◌∷◌, ◌==◌, arith, contains, All,
  Bool-cases, inl, inr, if◌then◌else◌, ok, nat_eq, list_eq, beq→eq, subst, length,
}
use bustan.OrderedDict.{OrderedDict, has_key}
use bustan.ModuleGraph.Inputs.{ModuleInput, input_eq, ModuleKey, key_eq, Declared}
use bustan.ModuleGraph.Discovery.{Walk, start, discover_modules}
use bustan.ModuleGraph.Order.{imports_of, IsOrdered, visit-Keeps, Reaches, here, next, IsOnCycle}

-- How far from the end of the list an input stands.
abbrev height : ModuleInput → OrderedDict ModuleInput ModuleKey → ℕ
height i [] = 0
height i ((j, k) ∷ d) = let rest = height i d in if j == i then suc (length d) else rest

height_le : (i : ModuleInput) (d : OrderedDict ModuleInput ModuleKey) → height i d ≤ length d
height_le i [] = omega arith
height_le i ((j, k) ∷ d) = ground (arith, height_le i d)

height_present :
    (i : ModuleInput) (d : OrderedDict ModuleInput ModuleKey) → 0 < height i d → has_key i d ≡ true
unfolding has_key
height_present i [] h = absurd (omega (arith, h))
height_present i ((j, k) ∷ d) h = ground (arith, height_present i d)

All-contains :
    (P : ModuleInput → Type 0) (l : List ModuleInput) (j : ModuleInput)
    → All P l
    → contains l j ≡ true
    → P j
All-contains P [] j every found = absurd (ground (arith, found))
All-contains P (i ∷ l) j every found = elim (Bool-cases (i == j)) [
  | inl same ↦ subst P (beq→eq same) every.0
  | inr other ↦ All-contains P l j every.1 (ground (arith, found, other))
]

rises_in_tail :
    (k : ModuleInput) (v : ModuleKey) (before : List ModuleInput)
    (d : OrderedDict ModuleInput ModuleKey) (i j : ModuleInput)
    → (k == i) ≡ false
    → (contains (k ∷ before) j ≡ true) ⊎ (height i d < height j d)
    → (contains before j ≡ true) ⊎ (height i ((k, v) ∷ d) < height j ((k, v) ∷ d))
rises_in_tail k v before d i j other (inr rises) = inr (ground (arith, other, rises, height_le j d))
rises_in_tail k v before d i j other (inl listed) = elim (Bool-cases (k == j)) [
  | inl same ↦ inr (ground (arith, other, same, height_le i d))
  | inr differs ↦ inl (ground (arith, differs, listed))
]

module _ (table : Declared) where
  -- An import stands before its importer.
  height_rises :
      (before : List ModuleInput) (d : OrderedDict ModuleInput ModuleKey) (i j : ModuleInput)
      → IsOrdered table before d
      → has_key i d ≡ true
      → contains (imports_of table i) j ≡ true
      → (contains before j ≡ true) ⊎ (height i d < height j d)
  unfolding has_key
  height_rises before [] i j h present imported = absurd (ground (arith, present))
  height_rises before ((k, v) ∷ d) i j h present imported = elim (Bool-cases (k == i)) [
    | inl same ↦ inl (
        All-contains (λ m. contains before m ≡ true) (imports_of table k) j h.0
          (subst (λ m. contains (imports_of table m) j ≡ true) (sym (beq→eq same)) imported))
    | inr other ↦
        rises_in_tail k v before d i j other
          (height_rises (k ∷ before) d i j h.1 (ground (arith, present, other)) imported)
  ]

  module _ (d : OrderedDict ModuleInput ModuleKey) (ordered : IsOrdered table [] d) where
    import_rises :
        (i j : ModuleInput)
        → has_key i d ≡ true
        → contains (imports_of table i) j ≡ true
        → height i d < height j d
    import_rises i j present imported = elim (height_rises [] d i j ordered present imported) [
      | inl listed ↦ absurd (ground (arith, listed))
      | inr rises ↦ rises
    ]

    reached_rises :
        (i : ModuleInput) {j : ModuleInput}
        → Reaches table i j
        → has_key i d ≡ true
        → (has_key j d ≡ true) × (height i d ≤ height j d)
    reached_rises i here present = (present, omega arith)
    reached_rises i (next {j} {k} path imported) present =
        let (known, le) = reached_rises i path present in
        let rises = import_rises j k known imported in
        (height_present k d (omega (arith, rises)), omega (arith, le, rises))

    no_cycle : (i : ModuleInput) → has_key i d ≡ true → ¬ IsOnCycle table i
    no_cycle i present c =
        let (known, le) = reached_rises i c.path present in
        omega (arith, le, import_rises c.last i known c.closes)

  -- A discovery that ends well has found every module that the root reaches, and none of them is on
  -- a cycle of imports.
  pub discover_modules-Reaches :
      (root i : ModuleInput) (w : Walk)
      → discover_modules table root ≡ ok w
      → Reaches table root i
      → (has_key i w.key_by_input ≡ true) × (¬ IsOnCycle table i)
  unfolding discover_modules
  discover_modules-Reaches root i w e path =
      let done = visit-Keeps table (suc (length table)) [] root start w tt e in
      let (known, le) = reached_rises w.key_by_input done.ordered root path done.present in
      (known, no_cycle w.key_by_input done.ordered i known)
