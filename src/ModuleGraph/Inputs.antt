-- ===== src/ModuleGraph/Inputs.antt =====
-- The inputs of kernel/module/graph.py and the expansion of one by `expand_module_input` of
-- kernel/module/compiler.py.
--
-- A class and a dynamic registration are named by numbers, the second by its `id`. What the
-- decorators and the registrations declare is a table from inputs to their merged metadata.
use bustan.Prelude.{
  ℕ, Bool, true, Option, none, some, List, [], ◌∷◌, ◌==◌, Eq, nat_eq, list_eq, list_beq,
  coded_beq_iff, ◌≡◌, ◌↔◌, refl, if◌then◌else◌,
}
use bustan.OrderedDict.{OrderedDict, get}

-- A module class, or a `DynamicModule`
pub data ModuleInput : Type 0 where
  class_module dynamic_module : ℕ → ModuleInput

-- A class, or a `ModuleInstanceKey` of a class and an instance id
pub data ModuleKey : Type 0 where
  class_key : ℕ → ModuleKey
  instance_key : ℕ → ℕ → ModuleKey

abbrev input_code : ModuleInput → List ℕ
input_code (class_module c) = 0 ∷ c ∷ []
input_code (dynamic_module d) = 1 ∷ d ∷ []

abbrev input_of : List ℕ → ModuleInput
input_of (k ∷ n ∷ rest) = if k == 0 then class_module n else dynamic_module n
input_of _ = class_module 0

input_of-input_code : (i : ModuleInput) → input_of (input_code i) ≡ i
input_of-input_code (class_module c) = refl
input_of-input_code (dynamic_module d) = refl

pub input_beq_iff : (i j : ModuleInput) → (list_beq (input_code i) (input_code j) ≡ true) ↔ (i ≡ j)
input_beq_iff = coded_beq_iff input_code input_of input_of-input_code

instance abbrev pub input_eq : Eq ModuleInput
input_eq = record { beq = λ i j. list_beq (input_code i) (input_code j); beq_iff = input_beq_iff }

abbrev key_code : ModuleKey → List ℕ
key_code (class_key c) = 0 ∷ c ∷ []
key_code (instance_key c n) = 1 ∷ c ∷ n ∷ []

abbrev key_of : List ℕ → ModuleKey
key_of (k ∷ c ∷ []) = class_key c
key_of (k ∷ c ∷ n ∷ rest) = instance_key c n
key_of _ = class_key 0

key_of-key_code : (k : ModuleKey) → key_of (key_code k) ≡ k
key_of-key_code (class_key c) = refl
key_of-key_code (instance_key c n) = refl

pub key_beq_iff : (k l : ModuleKey) → (list_beq (key_code k) (key_code l) ≡ true) ↔ (k ≡ l)
key_beq_iff = coded_beq_iff key_code key_of key_of-key_code

instance abbrev pub key_eq : Eq ModuleKey
key_eq = record { beq = λ k l. list_beq (key_code k) (key_code l); beq_iff = key_beq_iff }

-- `ModuleMetadata`, merged with its overlay. A token is named by a number, one for each type-aware
-- identity; `exports_module` says whether a module stands among the exports. `provided` is what
-- `validate_module_compiled` makes of the providers: the tokens bound, or `none` where it refuses them.
pub record ModuleMetadata : Type 0 where
  pub module_class : ℕ
  pub imports : List ModuleInput
  pub provided : Option (List ℕ)
  pub exports : List ℕ
  pub exports_module : Bool
  pub is_global : Bool

abbrev pub Declared : Type 0
Declared = OrderedDict ModuleInput ModuleMetadata

-- `CompiledModuleDef`
pub record CompiledModule : Type 0 where
  pub key : ModuleKey
  pub metadata : ModuleMetadata

-- The key of an expansion: a dynamic registration gets a new one each time.
abbrev pub key_for : ModuleInput → ModuleMetadata → ℕ → ModuleKey
key_for (class_module c) metadata counter = class_key c
key_for (dynamic_module d) metadata counter = instance_key metadata.module_class counter

-- `expand_module_input`; `none` is the `InvalidModuleError`.
unfoldable pub expand_module_input : Declared → ModuleInput → ℕ → Option CompiledModule
expand_module_input table input counter = elim (get input table) [
  | none ↦ none
  | some metadata ↦ some (record { key = key_for input metadata counter; metadata = metadata })
]
