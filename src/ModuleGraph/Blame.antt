-- ===== src/ModuleGraph/Blame.antt =====
-- A discovery refuses imports for a cycle only where there is one, on a path from the root.
use bustan.Prelude.{
  ℕ, zero, suc, ◌≡◌, ◌≤◌, ◌<◌, refl, sym, true, List, [], ◌∷◌, ◌==◌, arith, contains, All,
  Bool-cases, Option-cases, inl, inr, if◌then◌else◌, Result, ok, err, bind-err, nat_eq, list_eq,
  beq_refl, beq→eq, subst, length,
}
use bustan.OrderedDict.{get, has_key}
use bustan.ModuleGraph.Inputs.{
  ModuleInput, class_module, dynamic_module, input_eq, ModuleKey, class_key, instance_key, key_eq,
  ModuleMetadata, Declared, CompiledModule, expand_module_input, key_for,
}
use bustan.ModuleGraph.Discovery.{
  GraphError, module_cycle, Walk, Visiting, start, commit, finish, reject_cycle, key_visited,
  visit_imports, visit_compiled, visit_new, visit, discover_modules, is_dynamic,
}
use bustan.ModuleGraph.Order.{
  imports_of, IsOrdered, Keeps, visit-Keeps, Reaches, here, next, IsOnCycle,
}

-- The key that an input was given while it is visited: of the class itself, or a dynamic one below
-- the counter.
abbrev pub KeyFits : ℕ → ModuleInput → ModuleKey → Type 0
KeyFits counter (class_module c) k = k ≡ class_key c
KeyFits counter (dynamic_module d) k = (m : ℕ) × (n : ℕ) × (k ≡ instance_key m n) × (n < counter)

abbrev pub IsKeyed : ℕ → Visiting → Type 0
IsKeyed counter [] = Unit
IsKeyed counter ((i, k) ∷ visiting) = KeyFits counter i k × IsKeyed counter visiting

KeyFits-weaken : (n m : ℕ) (i : ModuleInput) (k : ModuleKey) → n ≤ m → KeyFits n i k → KeyFits m i k
KeyFits-weaken n m (class_module c) k le h = h
KeyFits-weaken n m (dynamic_module d) k le (c, j, e, lt) = (c, j, e, omega (arith, lt, le))

pub IsKeyed-weaken :
    (n m : ℕ) (visiting : Visiting) → n ≤ m → IsKeyed n visiting → IsKeyed m visiting
IsKeyed-weaken n m [] le h = tt
IsKeyed-weaken n m ((i, k) ∷ visiting) le h =
    (KeyFits-weaken n m i k le h.0, IsKeyed-weaken n m visiting le h.1)

class_of : ModuleKey → ℕ
class_of (class_key c) = c
class_of (instance_key c n) = 0

-- Only an input's own expansion has its key.
key_owner :
    (input i : ModuleInput) (metadata : ModuleMetadata) (counter : ℕ)
    → KeyFits counter i (key_for input metadata counter)
    → i ≡ input
key_owner (class_module c) (class_module d) metadata counter h = cc
key_owner (class_module c) (dynamic_module d) metadata counter (m, n, e, lt) = cc
key_owner (dynamic_module c) (class_module d) metadata counter h = cc
key_owner (dynamic_module c) (dynamic_module d) metadata counter (m, n, e, lt) =
    absurd (ground (arith, e, lt))

key_visited-has_key :
    (input : ModuleInput) (metadata : ModuleMetadata) (counter : ℕ) (visiting : Visiting)
    → IsKeyed counter visiting
    → key_visited (key_for input metadata counter) visiting ≡ true
    → has_key input visiting ≡ true
unfolding key_visited has_key
key_visited-has_key input metadata counter [] keyed h = h
key_visited-has_key input metadata counter ((i, k) ∷ visiting) keyed h =
    elim (Bool-cases (k == key_for input metadata counter)) [
      | inl same ↦
          let own =
            key_owner input i metadata counter (subst (KeyFits counter i) (beq→eq same) keyed.0) in
          ground (arith, own, input_eq.beq_iff i input)
      | inr other ↦
          let deeper = key_visited-has_key input metadata counter visiting keyed.1 in
          ground (arith, h, other, deeper)
    ]

pub key_for-KeyFits :
    (input : ModuleInput) (metadata : ModuleMetadata) (counter : ℕ)
    → KeyFits
        (if is_dynamic input then suc counter else counter)
        input
        (key_for input metadata counter)
key_for-KeyFits (class_module c) metadata counter = refl
key_for-KeyFits (dynamic_module d) metadata counter =
    (metadata.module_class, counter, refl, omega arith)

pub commit_counts :
    (input : ModuleInput) (compiled : CompiledModule) (w : Walk)
    → w.counter ≤ (commit input compiled w).counter
unfolding commit
commit_counts input compiled w = ground arith

module _ (table : Declared) (root : ModuleInput) where
  -- The inputs that are being visited import one another, from the root to the next one.
  abbrev IsChain : Visiting → ModuleInput → Type 0
  IsChain [] i = i ≡ root
  IsChain ((p, k) ∷ visiting) i = (contains (imports_of table p) i ≡ true) × IsChain visiting p

  IsChain-Reaches :
      (visiting : Visiting) (i : ModuleInput) → IsChain visiting i → Reaches table root i
  IsChain-Reaches [] i chain = subst (Reaches table root) (sym chain) here
  IsChain-Reaches ((p, k) ∷ visiting) i chain = next (IsChain-Reaches visiting p chain.1) chain.0

  -- What is visited already reaches what is visited next.
  IsChain-last :
      (visiting : Visiting) (i j : ModuleInput)
      → IsChain visiting i
      → has_key j visiting ≡ true
      → (last : ModuleInput) × Reaches table j last × (contains (imports_of table last) i ≡ true)
  unfolding has_key
  IsChain-last [] i j chain found = absurd (ground (arith, found))
  IsChain-last ((p, k) ∷ visiting) i j chain found = elim (Bool-cases (p == j)) [
    | inl same ↦ (p, subst (λ q. Reaches table q p) (beq→eq same) here, chain.0)
    | inr other ↦
        let (last, path, closes) =
          IsChain-last visiting p j chain.1 (ground (arith, found, other)) in
        (p, next path closes, chain.0)
  ]

  abbrev IsBlamed : ModuleInput → Type 0
  IsBlamed i = Reaches table root i × IsOnCycle table i

  abbrev Blames : Visiting → (ModuleInput → Walk → Result GraphError Walk) → Type 0
  Blames visiting v =
      (input i : ModuleInput) (w : Walk)
      → IsChain visiting input
      → IsOrdered table [] w.key_by_input
      → IsKeyed w.counter visiting
      → v input w ≡ err (module_cycle i)
      → IsBlamed i

  visit_imports-Blames :
      (visiting : Visiting) (v : ModuleInput → Walk → Result GraphError Walk)
      → Blames visiting v
      → Keeps table v
      → (l : List ModuleInput) (i : ModuleInput) (w : Walk) → All (IsChain visiting) l
      → IsOrdered table [] w.key_by_input
      → IsKeyed w.counter visiting
      → visit_imports v l w ≡ err (module_cycle i)
      → IsBlamed i
  unfolding visit_imports
  visit_imports-Blames visiting v blames keeps [] i w chains ordered keyed e =
      absurd (ground (arith, e))
  visit_imports-Blames visiting v blames keeps (j ∷ l) i w chains ordered keyed e =
      elim (bind-err (v j w) (λ (after : Walk). visit_imports v l after) (module_cycle i) e) [
        | inl first ↦ blames j i w chains.0 ordered keyed first
        | inr (mid, first, second) ↦
            let done = keeps j w mid ordered first in
            visit_imports-Blames visiting v blames keeps l i mid chains.1 done.ordered
              (IsKeyed-weaken w.counter mid.counter visiting done.counts keyed) second
      ]

  All-self :
      (l : List ModuleInput) (visiting : Visiting) (input : ModuleInput) (k : ModuleKey)
      → ((j : ModuleInput) → contains l j ≡ true → contains (imports_of table input) j ≡ true)
      → IsChain visiting input
      → All (IsChain ((input, k) ∷ visiting)) l
  All-self [] visiting input k among chain = tt
  All-self (j ∷ l) visiting input k among chain = (
    (among j (ground (arith, beq_refl j)), chain),
    All-self l visiting input k (λ m found. among m (ground (arith, found))) chain,
  )

  reenters :
      (visiting : Visiting) (input : ModuleInput) (metadata : ModuleMetadata) (counter : ℕ)
      → IsChain visiting input
      → IsKeyed counter visiting
      → reject_cycle (key_for input metadata counter) input visiting ≡ true
      → IsBlamed input
  unfolding reject_cycle
  reenters visiting input metadata counter chain keyed rejected =
      let owned = key_visited-has_key input metadata counter visiting keyed in
      let found : has_key input visiting ≡ true = ground (arith, rejected, owned) in
      let (last, path, closes) = IsChain-last visiting input input chain found in
      (IsChain-Reaches visiting input chain, record { last = last; path = path; closes = closes })

  visit_compiled-Blames :
      (v : Visiting → ModuleInput → Walk → Result GraphError Walk)
      → ((visiting : Visiting) → Blames visiting (v visiting))
      → ((visiting : Visiting) → Keeps table (v visiting))
      → (visiting : Visiting) (input i : ModuleInput) (metadata : ModuleMetadata) (w : Walk)
      → metadata.imports ≡ imports_of table input
      → IsChain visiting input
      → IsOrdered table [] w.key_by_input
      → IsKeyed w.counter visiting
      → visit_compiled v visiting input
          (record { key = key_for input metadata w.counter; metadata = metadata })
          w
        ≡ err (module_cycle i)
      → IsBlamed i
  unfolding visit_compiled
  visit_compiled-Blames v blames keeps visiting input i metadata w same chain ordered keyed e =
      let key = key_for input metadata w.counter in
      let compiled : CompiledModule = record { key = key; metadata = metadata } in
      let deeper = (input, key) ∷ visiting in
      elim (Bool-cases (reject_cycle key input visiting)) [
        | inl bad ↦
            let own : input ≡ i = ground (arith, bad, e) in
            subst IsBlamed own (reenters visiting input metadata w.counter chain keyed bad)
        | inr good ↦ elim (Option-cases metadata.provided) [
          | inl refused ↦ absurd (ground (arith, good, refused, e))
          | inr (tokens, bound) ↦
              elim (bind-err (visit_imports (v deeper) metadata.imports (commit input compiled w))
                (λ (m : Walk). ok (finish input key m)) (module_cycle i)
                (ground (arith, good, bound, e))) [
                  | inl inside ↦
                      visit_imports-Blames deeper (v deeper) (blames deeper) (keeps deeper)
                        metadata.imports i (commit input compiled w)
                        (All-self metadata.imports visiting input key
                          (λ j found. subst (λ l. contains l j ≡ true) same found) chain)
                        (unfold commit in ordered)
                        (
                          unfold commit in key_for-KeyFits input metadata w.counter,
                          IsKeyed-weaken w.counter (commit input compiled w).counter visiting
                              (commit_counts input compiled w) keyed,
                        )
                        inside
                  | inr (mid, walked, ended) ↦ absurd (ground (arith, ended))
                ]
        ]
      ]

  visit_new-Blames :
      (v : Visiting → ModuleInput → Walk → Result GraphError Walk)
      → ((visiting : Visiting) → Blames visiting (v visiting))
      → ((visiting : Visiting) → Keeps table (v visiting))
      → (visiting : Visiting) (input i : ModuleInput) (w : Walk) → IsChain visiting input
      → IsOrdered table [] w.key_by_input
      → IsKeyed w.counter visiting
      → visit_new v visiting input (expand_module_input table input w.counter) w
        ≡ err (module_cycle i)
      → IsBlamed i
  unfolding visit_new expand_module_input
  visit_new-Blames v blames keeps visiting input i w chain ordered keyed e =
      elim (Option-cases (get input table)) [
        | inl missing ↦ absurd (ground (arith, missing, e))
        | inr (metadata, found) ↦
            visit_compiled-Blames v blames keeps visiting input i metadata w (ground (arith, found))
              chain ordered keyed (ground (arith, found, e))
      ]

  visit-Blames : (fuel : ℕ) (visiting : Visiting) → Blames visiting (visit table fuel visiting)
  unfolding visit
  visit-Blames zero visiting input i w chain ordered keyed e = absurd (ground (arith, e))
  visit-Blames (suc fuel) visiting input i w chain ordered keyed e =
      elim (Bool-cases (has_key input w.key_by_input)) [
        | inl known ↦ absurd (ground (arith, known, e))
        | inr new ↦
            visit_new-Blames (visit table fuel) (visit-Blames fuel) (visit-Keeps table fuel)
              visiting input i w chain ordered keyed (ground (arith, new, e))
      ]

  -- A discovery that refuses a cycle names a module that the root reaches and that reaches itself by
  -- one import or more.
  pub module_cycle-IsOnCycle :
      (i : ModuleInput)
      → discover_modules table root ≡ err (module_cycle i)
      → Reaches table root i × IsOnCycle table i
  unfolding discover_modules
  module_cycle-IsOnCycle i e = visit-Blames (suc (length table)) [] root i start refl tt tt e
