-- ===== src/Lifecycle/Runner.antt =====
-- kernel/lifecycle/runner.py: one stage of hooks over modules and over the instances that the
-- container built, and the warm-up of providers.
--
-- Module keys, tokens and objects are named by numbers, an object by its `id`. The application's
-- classes are parameters: which hooks an object has, what a hook or a provider's construction does to
-- the container, and whether it fails.
use bustan.Prelude.{
  ℕ, Bool, true, false, not, ◌||◌, Option, none, some, List, [], ◌∷◌, ◌++◌, nat_eq, pair_eq,
  contains, if◌then◌else◌, any, reverse,
}
use bustan.OrderedDict.{OrderedDict, get, set}
use bustan.ScopePlan.Widths.{ProviderScope, singleton, durable, request, transient}

pub data HookName : Type 0 where
  on_module_init on_application_bootstrap before_application_shutdown on_application_shutdown
        on_module_destroy :
      HookName

-- `LIFECYCLE_HOOK_NAMES`
abbrev lifecycle_hook_names : List HookName
lifecycle_hook_names =
    on_module_init ∷ on_application_bootstrap ∷ before_application_shutdown
    ∷ on_application_shutdown ∷ on_module_destroy ∷ []

pub data ResolverKind : Type 0 where
  class_kind factory_kind value_kind existing_kind : ResolverKind

abbrev pub BindingKey : Type 0
BindingKey = ℕ × ℕ

pub record NodeBinding : Type 0 where
  pub token : ℕ
  pub scope : ProviderScope

pub record ModuleNode : Type 0 where
  pub key : ℕ
  pub bindings : List NodeBinding

-- What the lifecycle reads and changes of the container: its three caches, whether resolution is
-- refused, how often everything was discarded, and the override manager's `started` and `_overrides`.
pub record Container : Type 0 where
  pub singletons : OrderedDict BindingKey ℕ
  pub durable_instances : OrderedDict (BindingKey × ℕ) ℕ
  pub controller_singletons : OrderedDict BindingKey ℕ
  pub shut_down : Bool
  pub instance_generation : ℕ
  pub started : Bool
  pub overrides : OrderedDict BindingKey ℕ

-- Who has a hook: a module, or a provider's instance under the token it was first built for.
pub data Participant : Type 0 where
  module_of provider_of : ℕ → ℕ → Participant

abbrev pub instance_of : Participant → ℕ
instance_of (module_of key i) = i
instance_of (provider_of token i) = i

-- The application's own code, and what its bindings are: `depends_on k j` says whether `j` holds `k`,
-- however indirectly.
pub record Classes : Type 0 where
  pub has_hook : HookName → ℕ → Bool
  pub run_hook : HookName → ℕ → Container → Bool × Container
  pub class_has_hook : HookName → ℕ → Bool
  pub build_module : ℕ → Option ℕ
  pub resolve : BindingKey → Container → Bool × Container
  pub derives_key : BindingKey → Bool
  pub get_binding : BindingKey → Option ResolverKind
  pub is_singleton : BindingKey → Bool
  pub depends_on : BindingKey → BindingKey → Bool

-- The container, and the hooks that were called so far.
pub record World : Type 0 where
  pub container : Container
  pub calls : List (HookName × Participant)

pub data LifecycleError : Type 0 where
  hook_failed : HookName → Participant → LifecycleError
  module_failed : ℕ → LifecycleError
  resolution_failed : BindingKey → LifecycleError

-- A stage that ran to its end, with the errors it collected, and one that raised.
pub data Stage : Type 0 where
  completed : List LifecycleError → World → Stage
  raised : LifecycleError → World → Stage

abbrev pub node_key : ModuleNode → ℕ
node_key node = node.key

-- The modules of a stage, in the order given: those that have an instance.
abbrev pub module_participants : List ModuleNode → OrderedDict ℕ ℕ → List Participant
module_participants [] instances = []
module_participants (node ∷ nodes) instances =
    let rest = module_participants nodes instances in
    elim (get node.key instances) [ none ↦ rest | some i ↦ module_of node.key i ∷ rest ]

-- `_CONSTRUCTED_KINDS`
abbrev pub is_constructed : Option ResolverKind → Bool
is_constructed (some class_kind) = true
is_constructed (some factory_kind) = true
is_constructed _ = false

pub data Modules : Type 0 where
  built : OrderedDict ℕ ℕ → Modules
  refused : ℕ → Modules

module _ (c : Classes) where
  -- The body of the loops of `run_lifecycle_stage` and `run_provider_lifecycle_stage`, which a
  -- raised error has left.
  unfoldable pub try_hook : Bool → HookName → Participant → Stage → Stage
  try_hook collect hook p (raised e w) = raised e w
  try_hook collect hook p (completed errors w) =
      let (fine, container) = c.run_hook hook (instance_of p) w.container in
      let after : World = record { container = container; calls = w.calls ++ (hook, p) ∷ [] } in
      if not (c.has_hook hook (instance_of p))
      then completed errors w
      else if fine
      then completed errors after
      else if collect
      then completed (errors ++ hook_failed hook p ∷ []) after
      else raised (hook_failed hook p) after

  unfoldable pub run_hooks : Bool → HookName → List Participant → Stage → Stage
  run_hooks collect hook [] stage = stage
  run_hooks collect hook (p ∷ rest) stage =
      run_hooks collect hook rest (try_hook collect hook p stage)

  -- `run_lifecycle_stage`, after what ran before it
  abbrev pub run_lifecycle_stage :
      Bool → HookName → List ModuleNode → OrderedDict ℕ ℕ → Stage → Stage
  run_lifecycle_stage collect hook nodes instances stage =
      run_hooks collect hook (module_participants nodes instances) stage

  -- `_record`: the participants so far, and the instances that were seen.
  unfoldable pub record_instance :
      List Participant × List ℕ → BindingKey → ℕ → List Participant × List ℕ
  record_instance (constructed, seen) key i =
      if not (is_constructed (c.get_binding key)) || contains seen i
      then (constructed, seen)
      else (constructed ++ provider_of key.1 i ∷ [], seen ++ i ∷ [])

  unfoldable pub record_all :
      List Participant × List ℕ → OrderedDict BindingKey ℕ → List Participant × List ℕ
  record_all found [] = found
  record_all found ((key, i) ∷ rest) = record_all (record_instance found key i) rest

  -- A durable key without its partition.
  abbrev pub without_partition : OrderedDict (BindingKey × ℕ) ℕ → OrderedDict BindingKey ℕ
  without_partition [] = []
  without_partition ((key, i) ∷ rest) = (key.0, i) ∷ without_partition rest

  -- `constructed_instances`
  unfoldable pub constructed_instances : Container → List Participant
  constructed_instances container =
      let singletons = record_all ([], []) container.singletons in
      (record_all singletons (without_partition container.durable_instances)).0

  -- `run_provider_lifecycle_stage`: the participants are read once what ran before is over.
  unfoldable pub run_provider_lifecycle_stage : Bool → Bool → HookName → Stage → Stage
  run_provider_lifecycle_stage reversed collect hook (raised e w) = raised e w
  run_provider_lifecycle_stage reversed collect hook (completed errors w) =
      let participants = constructed_instances w.container in
      let ordered = if reversed then reverse participants else participants in
      run_hooks collect hook ordered (completed errors w)

  -- `_has_lifecycle_hooks`
  abbrev pub has_lifecycle_hooks : ℕ → Bool
  has_lifecycle_hooks key = any (λ hook. c.class_has_hook hook key) lifecycle_hook_names

  -- `instantiate_lifecycle_modules`, with `build_module_instance`
  unfoldable pub instantiate_lifecycle_modules : List ModuleNode → OrderedDict ℕ ℕ → Modules
  instantiate_lifecycle_modules [] instances = built instances
  instantiate_lifecycle_modules (node ∷ nodes) instances =
      let skipped = instantiate_lifecycle_modules nodes instances in
      if has_lifecycle_hooks node.key
      then (elim (c.build_module node.key) [
        | none ↦ refused node.key
        | some i ↦ instantiate_lifecycle_modules nodes (set node.key i instances)
      ])
      else skipped

  -- `_warms_at_startup`
  unfoldable pub warms_at_startup : BindingKey → ProviderScope → Bool
  warms_at_startup key singleton = true
  warms_at_startup key durable = c.derives_key key
  warms_at_startup key request = false
  warms_at_startup key transient = false

  -- `container.resolve_async`, which a container that is shut down refuses.
  unfoldable pub resolve_async : BindingKey → Stage → Stage
  resolve_async key (raised e w) = raised e w
  resolve_async key (completed errors w) =
      let (fine, container) = c.resolve key w.container in
      let after : World = record w { container = container } in
      if w.container.shut_down
      then raised (resolution_failed key) w
      else if fine
      then completed errors after
      else raised (resolution_failed key) after

  unfoldable pub warm_bindings : ℕ → List NodeBinding → Stage → Stage
  warm_bindings module_key [] stage = stage
  warm_bindings module_key (b ∷ rest) stage =
      let key : BindingKey = (module_key, b.token) in
      warm_bindings module_key rest
        (if warms_at_startup key b.scope then resolve_async key stage else stage)

  -- `warm_up_providers`
  unfoldable pub warm_up_providers : List ModuleNode → Stage → Stage
  warm_up_providers [] stage = stage
  warm_up_providers (node ∷ nodes) stage =
      warm_up_providers nodes (warm_bindings node.key node.bindings stage)

  -- `run_init_stage` and `run_bootstrap_hooks`
  unfoldable pub run_init_stage : List ModuleNode → OrderedDict ℕ ℕ → Stage → Stage
  run_init_stage nodes instances stage =
      run_provider_lifecycle_stage false false on_module_init
        (run_lifecycle_stage false on_module_init nodes instances (warm_up_providers nodes stage))

  unfoldable pub run_bootstrap_hooks : List ModuleNode → OrderedDict ℕ ℕ → Stage → Stage
  run_bootstrap_hooks nodes instances stage =
      run_provider_lifecycle_stage false false on_application_bootstrap
        (run_lifecycle_stage false on_application_bootstrap nodes instances stage)

  -- `run_before_shutdown_hooks`, `run_shutdown_hooks` and `run_destroy_hooks`, which differ in
  -- their hook only.
  unfoldable pub run_teardown_stage : HookName → List ModuleNode → OrderedDict ℕ ℕ → Stage → Stage
  run_teardown_stage hook nodes instances stage =
      run_provider_lifecycle_stage true true hook
        (run_lifecycle_stage true hook (reverse nodes) instances stage)
