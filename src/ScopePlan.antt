-- ===== src/ScopePlan.antt =====
-- kernel/ioc/planning/scopes.py: the effective scope of every binding, and the edges that the scope
-- rules refuse. The text of an error is left out: a violation is recorded by what it is about.
--
-- A module key and a class are named by numbers, and a token by its identity.
mod Tests
pub mod Widths
pub mod Narrowing
pub mod Settling
pub mod Solve
pub mod Violations
pub mod Safety
pub mod Exact
pub mod Exposure
use bustan.Prelude.{
  ℕ, zero, suc, ◌+◌, ◌*◌, Bool, true, false, not, ◌&&◌, ◌||◌, Option, none, some, List, [], ◌∷◌,
  ◌++◌, ◌==◌, Eq, nat_eq, list_eq, pair_eq, ltb, if◌then◌else◌, length, map, String, list_beq,
  coded_beq_iff, ◌≡◌, ◌↔◌, refl, ap, ◌∙◌, sym,
}
use bustan.OrderedDict.{OrderedDict, get, set}
use bustan.ScopePlan.Widths.{
  ProviderScope, singleton, durable, request, transient, width, scope_eq, narrowest,
}

-- The tokens that the framework gives a meaning, a transport's own request type, an annotation that
-- cannot be hashed, and every other token.
pub data Token : Type 0 where
  http_request http_response request_token response_token inquirer : Token
  native_request unhashable named : ℕ → Token

abbrev token_code : Token → List ℕ
token_code http_request = 0 ∷ []
token_code http_response = 1 ∷ []
token_code request_token = 2 ∷ []
token_code response_token = 3 ∷ []
token_code inquirer = 4 ∷ []
token_code (native_request n) = 5 ∷ n ∷ []
token_code (unhashable n) = 6 ∷ n ∷ []
token_code (named n) = 7 ∷ n ∷ []

abbrev token_of : List ℕ → Token
token_of [] = http_request
token_of (k ∷ []) =
    if k == 0
    then http_request
    else if k == 1
    then http_response
    else if k == 2
    then request_token
    else if k == 3
    then response_token
    else inquirer
token_of (k ∷ n ∷ rest) =
    if k == 5 then native_request n else if k == 6 then unhashable n else named n

token_of-token_code : (t : Token) → token_of (token_code t) ≡ t
token_of-token_code http_request = refl
token_of-token_code http_response = refl
token_of-token_code request_token = refl
token_of-token_code response_token = refl
token_of-token_code inquirer = refl
token_of-token_code (native_request n) = refl
token_of-token_code (unhashable n) = refl
token_of-token_code (named n) = refl

pub token_beq_iff : (t u : Token) → (list_beq (token_code t) (token_code u) ≡ true) ↔ (t ≡ u)
token_beq_iff = coded_beq_iff token_code token_of token_of-token_code

instance abbrev pub token_eq : Eq Token
token_eq = record { beq = λ t u. list_beq (token_code t) (token_code u); beq_iff = token_beq_iff }

abbrev pub BindingKey : Type 0
BindingKey = ℕ × Token

pub record ScopeDependency : Type 0 where
  pub token : Token
  pub site : String

-- `resolver_kind` and `target` of a binding; a class binding's target may be no class.
pub data Target : Type 0 where
  class_target : ℕ → Target
  other_class value_target : Target
  factory_target : List Token → Target
  existing_target : Token → Target

pub record Binding : Type 0 where
  pub scope : ProviderScope
  pub target : Target

abbrev pub Scopes : Type 0
Scopes = OrderedDict BindingKey ProviderScope

-- `_ScopeGraph`
pub record ScopeGraph : Type 0 where
  pub bindings : OrderedDict BindingKey Binding
  pub visibility : OrderedDict ℕ (OrderedDict Token ℕ)
  pub class_dependencies : OrderedDict ℕ (List ScopeDependency)

-- `_is_request_derived`
unfoldable pub is_request_derived : Token → Bool
is_request_derived http_request = true
is_request_derived http_response = true
is_request_derived request_token = true
is_request_derived response_token = true
is_request_derived (native_request n) = true
is_request_derived _ = false

-- `is_pass_through`
abbrev is_existing : Target → Bool
is_existing (existing_target t) = true
is_existing _ = false

unfoldable pub is_pass_through : Binding → Bool
is_pass_through b = is_existing b.target || b.scope == transient

abbrev is_hashable : Token → Bool
is_hashable (unhashable n) = false
is_hashable _ = true

abbrev pub or_empty {ℓ κ} : {K : Type ℓ} {V : Type κ} → Option (OrderedDict K V) → OrderedDict K V
or_empty none = []
or_empty (some d) = d

abbrev pub or_nothing : Option (List ScopeDependency) → List ScopeDependency
or_nothing none = []
or_nothing (some l) = l

-- `scopes[key]`; every located key has an entry.
unfoldable pub scope_of : Scopes → BindingKey → ProviderScope
scope_of scopes key = elim (get key scopes) [ none ↦ transient | some s ↦ s ]

-- What `solve` starts from: a binding with a cache of its own hands over its scope.
unfoldable pub initial : OrderedDict BindingKey Binding → Scopes
initial [] = []
initial ((key, b) ∷ rest) = (key, if is_pass_through b then transient else b.scope) ∷ initial rest

unfoldable pub pass_through : OrderedDict BindingKey Binding → List (BindingKey × Binding)
pass_through [] = []
pass_through ((key, b) ∷ rest) =
    let others = pass_through rest in if is_pass_through b then (key, b) ∷ others else others

pub record ScopeViolation : Type 0 where
  pub owner : BindingKey
  pub owner_scope : ProviderScope
  pub dependency : Token
  pub reached : Option ProviderScope

-- `_escapes_owner`
unfoldable pub escapes_owner : ProviderScope → ProviderScope → Bool
escapes_owner owner reached =
    if owner == transient || reached == transient then false else ltb (width reached) (width owner)

abbrev pub cons_some {ℓ} : {A : Type ℓ} → Option A → List A → List A
cons_some none found = found
cons_some (some a) found = a ∷ found

module _ (g : ScopeGraph) where
  -- `locate`: the key and the binding; an unhashable token is located nowhere.
  unfoldable pub locate : Token → ℕ → Option (BindingKey × Binding)
  locate token module_key =
      if is_hashable token
      then (elim (get token (or_empty (get module_key g.visibility))) [
        | none ↦ none
        | some declaring ↦ elim (get (declaring, token) g.bindings) [
          | none ↦ none
          | some b ↦ some ((declaring, token), b)
        ]
      ])
      else none

  -- `dependencies`
  unfoldable pub dependencies : Target → List ScopeDependency
  dependencies (existing_target t) = record { token = t; site = "alias target" } ∷ []
  dependencies (factory_target inject) =
      map (λ t. record { token = t; site = "inject entry" }) inject
  dependencies (class_target c) = or_nothing (get c g.class_dependencies)
  dependencies other_class = []
  dependencies value_target = []

  -- `reached_scope`
  unfoldable pub reached_scope : Token → ℕ → Scopes → ProviderScope
  reached_scope token module_key scopes =
      if is_request_derived token then request else (elim (locate token module_key) [
        | none ↦ transient
        | some (key, b) ↦ scope_of scopes key
      ])

  -- The narrowest scope that the dependencies of a binding hand over.
  unfoldable pub reached_by : BindingKey → Binding → Scopes → ProviderScope
  reached_by (module_key, token) b scopes =
      narrowest (map (λ d. reached_scope d.token module_key scopes) (dependencies b.target))

  -- One step, and one pass, of the loop: the scopes after it, and whether it changed any.
  unfoldable pub narrow : BindingKey → Binding → Scopes × Bool → Scopes × Bool
  narrow key b (scopes, changed) =
      let reached = reached_by key b scopes in
      if reached == scope_of scopes key then (scopes, changed) else (set key reached scopes, true)

  unfoldable pub run_pass : List (BindingKey × Binding) → Scopes × Bool → Scopes × Bool
  run_pass [] state = state
  run_pass ((key, b) ∷ rest) state = run_pass rest (narrow key b state)

  -- `while changed`, for at most `fuel` passes.
  unfoldable pub settle : ℕ → List (BindingKey × Binding) → Scopes → Option Scopes
  settle zero todo scopes = none
  settle (suc fuel) todo scopes =
      let (after, changed) = run_pass todo (scopes, false) in
      let more = settle fuel todo after in if changed then more else some after

  -- `solve`: a pass for each time that a scope can narrow, and one that changes nothing.
  unfoldable pub solve : Option Scopes
  solve = settle (suc (3 * length g.bindings)) (pass_through g.bindings) (initial g.bindings)

  -- `_violation`
  unfoldable pub violation : BindingKey → Binding → Scopes → ScopeDependency → Option ScopeViolation
  violation key b scopes d =
      let (module_key, token) = key in
      let reached = reached_scope d.token module_key scopes in
      if d.token == inquirer
      then some
          (record { owner = key; owner_scope = b.scope; dependency = inquirer; reached = none })
      else if escapes_owner b.scope reached
      then some (record {
        owner = key;
        owner_scope = b.scope;
        dependency = d.token;
        reached = some reached;
      })
      else none

  unfoldable pub owner_violations :
      BindingKey → Binding → Scopes → List ScopeDependency → List ScopeViolation
  owner_violations key b scopes [] = []
  owner_violations key b scopes (d ∷ rest) =
      cons_some (violation key b scopes d) (owner_violations key b scopes rest)

  -- `violations`, in the order of the bindings; a transient owner is passed over.
  unfoldable pub violations : OrderedDict BindingKey Binding → Scopes → List ScopeViolation
  violations [] scopes = []
  violations ((key, b) ∷ rest) scopes =
      if b.scope == transient
      then violations rest scopes
      else owner_violations key b scopes (dependencies b.target) ++ violations rest scopes
