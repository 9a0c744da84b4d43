-- ===== src/ModuleGraph/Order.antt =====
-- A discovery that ends well lists every module after all that it imports.
use bustan.Prelude.{
  ℕ, ◌≤◌, zero, suc, ◌≡◌, refl, ◌∙◌, true, false, ◌||◌, Option, none, some, List, [], ◌∷◌, ◌==◌,
  arith, contains, All, Bool-cases, Option-cases, inl, inr, Result, ok, bind-ok, ok-injective,
  nat_eq, list_eq, beq_refl, subst,
}
use bustan.OrderedDict.{OrderedDict, get, set, has_key}
use bustan.OrderedDict.Distinct.{has_key-set}
use bustan.ModuleGraph.Inputs.{
  ModuleInput, input_eq, ModuleKey, key_eq, ModuleMetadata, Declared, CompiledModule,
  expand_module_input,
}
use bustan.ModuleGraph.Discovery.{
  GraphError, Walk, Visiting, commit, finish, reject_cycle, visit_imports, visit_compiled,
  visit_new, visit,
}

-- What a module imports.
abbrev pub imports_in : Option ModuleMetadata → List ModuleInput
imports_in none = []
imports_in (some metadata) = metadata.imports

-- What a visit that ended well did.
pub visit_compiled-ok :
    (v : Visiting → ModuleInput → Walk → Result GraphError Walk) (visiting : Visiting)
    (input : ModuleInput) (compiled : CompiledModule) (w after : Walk)
    → visit_compiled v visiting input compiled w ≡ ok after
    → (mid : Walk) × (reject_cycle compiled.key input visiting ≡ false)
      × (visit_imports
            (v ((input, compiled.key) ∷ visiting))
            compiled.metadata.imports
            (commit input compiled w)
          ≡ ok mid)
      × (finish input compiled.key mid ≡ after)
unfolding visit_compiled
visit_compiled-ok v visiting input compiled w after e =
    elim (Bool-cases (reject_cycle compiled.key input visiting)) [
      | inl bad ↦ ground (arith, bad, e)
      | inr good ↦ elim (Option-cases compiled.metadata.provided) [
        | inl refused ↦ ground (arith, good, refused, e)
        | inr (tokens, bound) ↦
            let (mid, walked, ended) =
              bind-ok
                (visit_imports (v ((input, compiled.key) ∷ visiting)) compiled.metadata.imports
                  (commit input compiled w))
                (λ (m : Walk). ok (finish input compiled.key m)) after
                (ground (arith, good, bound, e)) in
            (mid, good, walked, ok-injective _ _ ended)
      ]
    ]

module _ (table : Declared) where
  abbrev pub imports_of : ModuleInput → List ModuleInput
  imports_of i = imports_in (get i table)

  -- Every input stands behind all that it imports; those of `before` stand before the list.
  abbrev pub IsOrdered : List ModuleInput → OrderedDict ModuleInput ModuleKey → Type 0
  IsOrdered before [] = Unit
  IsOrdered before ((i, k) ∷ d) =
      All (λ j. contains before j ≡ true) (imports_of i) × IsOrdered (i ∷ before) d

  All-weaken :
      (before : List ModuleInput) (i : ModuleInput) (k : ModuleKey)
      (d : OrderedDict ModuleInput ModuleKey) (l : List ModuleInput)
      → All (λ j. (contains before j || has_key j ((i, k) ∷ d)) ≡ true) l
      → All (λ j. (contains (i ∷ before) j || has_key j d) ≡ true) l
  unfolding has_key
  All-weaken before i k d [] h = tt
  All-weaken before i k d (j ∷ l) h = (ground (arith, h.0), All-weaken before i k d l h.1)

  All-listed :
      (before l : List ModuleInput)
      → All (λ j. (contains before j || has_key {V = ModuleKey} j []) ≡ true) l
      → All (λ j. contains before j ≡ true) l
  unfolding has_key
  All-listed before [] h = tt
  All-listed before (j ∷ l) h = (ground (arith, h.0), All-listed before l h.1)

  set-IsOrdered :
      (before : List ModuleInput) (i : ModuleInput) (k : ModuleKey)
      (d : OrderedDict ModuleInput ModuleKey)
      → All (λ j. (contains before j || has_key j d) ≡ true) (imports_of i)
      → IsOrdered before d
      → IsOrdered before (set i k d)
  unfolding set
  set-IsOrdered before i k [] known h = (All-listed before (imports_of i) known, tt)
  set-IsOrdered before i k ((j, l) ∷ d) known h = elim (Bool-cases (j == i)) [
    | inl same ↦ rw same h
    | inr other ↦
        rw other
          (h.0, set-IsOrdered (j ∷ before) i k d (All-weaken before j l d (imports_of i) known) h.1)
  ]

  -- What a visit does to the table of the inputs that are done.
  pub record Done (input : ModuleInput) (w after : Walk) : Type 0 where
    pub ordered : IsOrdered [] after.key_by_input
    pub present : has_key input after.key_by_input ≡ true
    pub counts : w.counter ≤ after.counter
    pub kept :
        (j : ModuleInput) → has_key j w.key_by_input ≡ true → has_key j after.key_by_input ≡ true

  abbrev pub Keeps : (ModuleInput → Walk → Result GraphError Walk) → Type 0
  Keeps v =
      (input : ModuleInput) (w after : Walk)
      → IsOrdered [] w.key_by_input
      → v input w ≡ ok after
      → Done input w after

  record AllDone (l : List ModuleInput) (w after : Walk) : Type 0 where
    ordered : IsOrdered [] after.key_by_input
    present : All (λ j. has_key j after.key_by_input ≡ true) l
    pub counts : w.counter ≤ after.counter
    pub kept :
        (j : ModuleInput) → has_key j w.key_by_input ≡ true → has_key j after.key_by_input ≡ true

  visit_imports-AllDone :
      (v : ModuleInput → Walk → Result GraphError Walk)
      → Keeps v
      → (l : List ModuleInput) (w after : Walk) → IsOrdered [] w.key_by_input
      → visit_imports v l w ≡ ok after
      → AllDone l w after
  unfolding visit_imports
  visit_imports-AllDone v keeps [] w after h e =
      let same = ok-injective w after e in
      record {
        ordered = subst (λ (x : Walk). IsOrdered [] x.key_by_input) same h;
        present = tt;
        counts = subst (λ (x : Walk). w.counter ≤ x.counter) same (omega arith);
        kept = λ j known. subst (λ (x : Walk). has_key j x.key_by_input ≡ true) same known;
      }
  visit_imports-AllDone v keeps (i ∷ l) w after h e =
      let (mid, first, second) = bind-ok (v i w) _ after e in
      let done = keeps i w mid h first in
      let rest = visit_imports-AllDone v keeps l mid after done.ordered second in
      record {
        ordered = rest.ordered;
        present = (rest.kept i done.present, rest.present);
        counts = omega (arith, done.counts, rest.counts);
        kept = λ j known. rest.kept j (done.kept j known);
      }

  visit_compiled-Done :
      (v : Visiting → ModuleInput → Walk → Result GraphError Walk)
      → ((visiting : Visiting) → Keeps (v visiting))
      → (visiting : Visiting) (input : ModuleInput) (compiled : CompiledModule) (w after : Walk)
      → compiled.metadata.imports ≡ imports_of input
      → IsOrdered [] w.key_by_input
      → visit_compiled v visiting input compiled w ≡ ok after
      → Done input w after
  unfolding commit finish
  visit_compiled-Done v keeps visiting input compiled w after same h e =
      let (mid, admitted, walked, ended) = visit_compiled-ok v visiting input compiled w after e in
      let all =
        visit_imports-AllDone (v ((input, compiled.key) ∷ visiting))
          (keeps ((input, compiled.key) ∷ visiting)) compiled.metadata.imports
          (commit input compiled w) mid h walked in
      let key = compiled.key in
      let known = λ (j : ModuleInput). has_key-set input j key mid.key_by_input in
      subst (Done input w) ended (record {
        ordered =
            set-IsOrdered [] input key mid.key_by_input
              (subst (All (λ j. has_key j mid.key_by_input ≡ true)) same all.present) all.ordered;
        counts = ground (arith, all.counts);
        present = known input ∙ ground (arith, beq_refl input);
        kept = λ j before. known j ∙ ground (arith, all.kept j before);
      })

  pub expand_module_input-imports :
      (input : ModuleInput) (counter : ℕ) (compiled : CompiledModule)
      → expand_module_input table input counter ≡ some compiled
      → compiled.metadata.imports ≡ imports_of input
  unfolding expand_module_input
  expand_module_input-imports input counter compiled e = elim (Option-cases (get input table)) [
    | inl missing ↦ ground (arith, missing, e)
    | inr (metadata, found) ↦ ground (arith, found, e)
  ]

  visit_new-Done :
      (v : Visiting → ModuleInput → Walk → Result GraphError Walk)
      → ((visiting : Visiting) → Keeps (v visiting))
      → (visiting : Visiting) (input : ModuleInput) (found : Option CompiledModule) (w after : Walk)
      → ((compiled : CompiledModule)
          → found ≡ some compiled
          → compiled.metadata.imports ≡ imports_of input)
      → IsOrdered [] w.key_by_input
      → visit_new v visiting input found w ≡ ok after
      → Done input w after
  unfolding visit_new
  visit_new-Done v keeps visiting input none w after same h e = absurd (ground (arith, e))
  visit_new-Done v keeps visiting input (some compiled) w after same h e =
      visit_compiled-Done v keeps visiting input compiled w after (same compiled refl) h e

  pub visit-Keeps : (fuel : ℕ) (visiting : Visiting) → Keeps (visit table fuel visiting)
  unfolding visit
  visit-Keeps zero visiting input w after h e = absurd (ground (arith, e))
  visit-Keeps (suc fuel) visiting input w after h e =
      elim (Bool-cases (has_key input w.key_by_input)) [
        | inl known ↦
            let same = ok-injective {E = GraphError} w after (ground (arith, known, e)) in
            subst (Done input w) same (record {
              ordered = h;
              present = known;
              counts = omega arith;
              kept = λ j before. before;
            })
        | inr new ↦
            visit_new-Done (visit table fuel) (visit-Keeps fuel) visiting input
              (expand_module_input table input w.counter) w after
              (expand_module_input-imports input w.counter) h (ground (arith, new, e))
      ]

  pub data Reaches (i : ModuleInput) : ModuleInput → Type 0 where
    here : Reaches i i
    next : {j k : ModuleInput} → Reaches i j → contains (imports_of j) k ≡ true → Reaches i k

  -- A module that is reached from itself by one import or more
  pub record IsOnCycle (i : ModuleInput) : Type 0 where
    pub last : ModuleInput
    pub path : Reaches i last
    pub closes : contains (imports_of last) i ≡ true
