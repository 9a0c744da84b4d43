-- ===== src/Lib.antt =====
-- A verification library for Bustan, an application framework with modules, dependency injection
-- and adapters for HTTP servers. It models the parts of `src/bustan` that decide, rather than
-- describe: what a module sees of the others, which route answers a request, how long an injected
-- instance may live, how many requests a caller may send, and which results are answered again.
--
-- The parts and how they interact. The module graph is discovered from the root and says which module
-- declares each token that a module sees; its modules are compiled into bindings, and its controllers
-- into the route plan that an adapter registers. The scope planner gives
-- every binding the scope of the instances that it hands over, and refuses a binding that would hold
-- state narrower than its own cache. A running application routes each request through the router
-- of its transport, then through its guards, of which the throttler is one, and its
-- interceptors, of which the cache and the idempotency keys are two. The health service reports on the
-- readiness that the lifecycle's hooks set.
--
-- `Prelude`: what the parts share. Numbers, lists and texts (a text that the code takes apart is a
--   list of code points), Boolean equality as the interface `Eq`.
-- `OrderedDict`: Python's insertion-ordered dictionaries, as association lists with the first entry
--   the oldest: `get`, `set`, `remove`, `move_to_end`, and `trim` for the eviction loops.
-- `Throttler`: src/bustan/security/throttler.py. `Storage` is `InMemoryThrottlerStorage`,
--   `count_request` its one operation; `Throttler.Guard` is `ThrottlerGuard.can_activate` with the
--   choice of limit, window and key, and `Throttler.Client` finds the address that a request is
--   counted under. The clock reading is an argument, in ticks of which `res` make a second. Parsing an
--   address is the standard library's `ipaddress`, and so an argument.
-- `AsgiRouter`: src/bustan/adapters/asgi/routing.py. `Template` reads a path template as
--   `compile_path` does and gives the expression as a list of atoms; `Pattern` matches it in the
--   order of Python's `re`, longest first with backtracking; `Table` is `AsgiRouter` with its table of
--   static paths, `add` and `resolve`.
-- `ModuleGraph`: src/bustan/kernel/module/graph.py. `Discovery` is `_discover_modules`, `Visibility` is
--   `_build_visibility_tables` with what it calls. What the decorators and the dynamic registrations
--   declare is a table from module inputs to their merged metadata, which `expand_module_input` of
--   compiler.py reads; tokens are numbers, one for each type-aware identity.
-- `Routing`: `Versioning`, `Registry` and `Plan` are src/bustan/runtime/versioning.py, registry.py and
--   routing.py. A handler is named by the contract it serves; what a request asks for is read from its
--   headers, which are a function of the model's caller.
-- `Replay`: the results that src/bustan/security/policy.py records for the cache and for idempotency
--   keys. `Results` is `_RecordedResults`; `Interceptors` is `_CachedAnswers` and `_RecordedAttempts`. The
--   clock readings are arguments, and the handler is a function of the world it may change.
-- `MultiValues`: `QueryParams` and `Headers` of src/bustan/contracts/values.py, from the pairs that the
--   standard library decodes.
-- `ScopePlan`: src/bustan/kernel/ioc/planning/scopes.py. `ScopeGraph` is `_ScopeGraph`, with its
--   operations `locate`, `dependencies`, `reached_scope`, `solve` and `violations`.
-- `Lifecycle`: src/bustan/kernel/lifecycle. `Runner` is runner.py, the stages of hooks; `Manager` is
--   manager.py, `startup` and `shutdown`. The container's three caches and flags are one record; the
--   application's hooks, constructors and factories, and the kernel that resolves a provider, are
--   parameters that may change it. `Overrides` is `OverrideManager.override` and `clear_override` of
--   src/bustan/kernel/ioc/overrides.py, with which bindings hold another as a parameter. `Restarts.Step`
--   relates an application before and after a startup, a shutdown, a request, or an override that is
--   registered or cleared.
-- `Locks`: the `ConstructionLocks` of src/bustan/kernel/ioc/scopes.py, with the store of lock entries
--   that the callers share. `Step` takes the resolutions of `_held` and `_held_async` through borrowing
--   an entry, entering its lock, leaving the lock and releasing the entry, in any interleaving.
-- `InstanceStore`: the `BoundedInstanceStore` of the same file, which caches durable instances and drops
--   the one used longest ago. An instance is named by a number.
-- `ScopeManager`: the `ScopeManager` of the same file, with the caches of singletons, controllers, durable
--   instances and requests, and the context variables as values with their tokens. A request's tables are
--   kept by reference, and `keep_instance` is `InstanceCache.keep` of
--   src/bustan/kernel/ioc/runtime/steps.py on such a table. `ControllerLocks.Step` takes the threads that
--   ask for a controller's lock through the lookup, the guard and its `setdefault`.
-- `Readiness`: src/bustan/health/readiness.py, `ReadinessState` with its hooks and the check.
-- `Health`: src/bustan/health/service.py with the results of indicators.py; `HealthService` registers
--   indicators, and its two probes report on them and on `Readiness`.
--
-- Fuel. The loop of `solve` runs on fuel, three passes for each binding and one more: each pass but
-- the last narrows a scope, and a scope narrows at most three times. The walk over the imports runs on
-- the number of modules declared, since no path visits one twice. The views run on fuel that their
-- caller gives, and running out of it is an error of its own. All else is structural recursion.
--
-- Not modelled: the text of error messages; reflection on Python's annotations and signatures; input
-- and output of the transports; the command line, the OpenAPI document and the logs. Threads appear
-- in the locks; elsewhere a lock makes an operation one step.
pub mod Prelude
pub mod OrderedDict
pub mod Throttler
pub mod AsgiRouter
pub mod ScopePlan
pub mod Lifecycle
pub mod Locks
pub mod InstanceStore
pub mod ScopeManager
pub mod Readiness
pub mod Replay
pub mod Health
pub mod MultiValues
pub mod Routing
pub mod ModuleGraph
