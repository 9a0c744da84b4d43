-- ===== src/Lifecycle/Tests.antt =====
-- Runs of the lifecycle on a small application, and its theorems at them.
use bustan.Prelude.{
  ℕ, ◌+◌, ◌≡◌, refl, true, false, not, ◌||◌, some, [], ◌∷◌, ◌==◌, nat_eq, pair_eq, map, any,
  contains, reverse,
}
use bustan.OrderedDict.{get, set, remove}
use bustan.ScopePlan.Widths.{singleton, request}
use bustan.Lifecycle.Runner.{
  on_module_init, on_application_bootstrap, before_application_shutdown, on_application_shutdown,
  on_module_destroy, class_kind, ModuleNode, Container, module_of, provider_of, instance_of,
  Classes, try_hook, run_hooks, record_instance, record_all, without_partition,
  constructed_instances, run_provider_lifecycle_stage, instantiate_lifecycle_modules,
  warms_at_startup, resolve_async, warm_bindings, warm_up_providers, run_init_stage,
  run_bootstrap_hooks, run_teardown_stage,
}
use bustan.Lifecycle.Manager.{
  App, startup, shutdown, tear_down, start_modules, finish_startup, forget_instances,
}
use bustan.Lifecycle.Stages.{teardown_calls, teardown_failures, with_calls}
use bustan.Lifecycle.Participants.{IsDistinct, is_built, constructed_instances-IsDistinct}
use bustan.Lifecycle.Overrides.{evict_reach, seat_singleton, override, clear_override}
use bustan.Lifecycle.Cycle.{IsClosed, shutdown-eq}
use bustan.Lifecycle.Startup.{startup_result, startup-eq}
use bustan.Lifecycle.Restarts.{starts, stops, overrides, here, next, Reach-IsClosed}

program : Unit {0}
unfolding get set remove try_hook run_hooks record_instance record_all constructed_instances
    run_provider_lifecycle_stage instantiate_lifecycle_modules warms_at_startup resolve_async
    warm_bindings warm_up_providers run_init_stage run_bootstrap_hooks run_teardown_stage startup
    shutdown tear_down start_modules finish_startup forget_instances reverse evict_reach
    seat_singleton override clear_override
program = tt

-- The hooks of the object 12 fail; a provider of the token `t` is the object `10 + t`.
abbrev classes : Classes
classes = record {
  has_hook = λ hook i. true;
  run_hook = λ hook i container. (not (i == 12), container);
  class_has_hook = λ hook key. true;
  build_module = λ key. some (100 + key);
  resolve = λ key container.
      (true, record container { singletons = set key (10 + key.1) container.singletons });
  derives_key = λ key. false;
  get_binding = λ key. some class_kind;
  is_singleton = λ key. true;
  depends_on = λ key k. false;
}

abbrev node : ℕ → ℕ → ModuleNode
node key token = record {
  key = key;
  bindings =
      record { token = token; scope = singleton } ∷ record { token = 9; scope = request } ∷ [];
}

abbrev fresh : App
fresh = record {
  initialized = false;
  closed = false;
  module_instances = [];
  world = record {
    container = record {
      singletons = [];
      durable_instances = [];
      controller_singletons = [];
      shut_down = false;
      instance_generation = 0;
      started = false;
      overrides = [];
    };
    calls = [];
  };
}

-- A startup of one module, whose provider is the object 11.
abbrev up_app : App
up_app = (startup classes (node 1 1 ∷ []) fresh).1

hooks_of_startup :
    up_app.world.calls
    ≡ (on_module_init, module_of 1 101)
      ∷ (on_module_init, provider_of 1 11)
      ∷ (on_application_bootstrap, module_of 1 101)
      ∷ (on_application_bootstrap, provider_of 1 11)
      ∷ []
unfolding program
hooks_of_startup = refl

-- One whose provider's hook fails is undone: the other provider is destroyed too.
failing_startup :
    (startup classes (node 1 1 ∷ node 2 2 ∷ []) fresh).1.world.calls
    ≡ (on_module_init, module_of 1 101)
      ∷ (on_module_init, module_of 2 102)
      ∷ (on_module_init, provider_of 1 11)
      ∷ (on_module_init, provider_of 2 12)
      ∷ (before_application_shutdown, module_of 2 102)
      ∷ (before_application_shutdown, module_of 1 101)
      ∷ (before_application_shutdown, provider_of 2 12)
      ∷ (before_application_shutdown, provider_of 1 11)
      ∷ (on_application_shutdown, module_of 2 102)
      ∷ (on_application_shutdown, module_of 1 101)
      ∷ (on_application_shutdown, provider_of 2 12)
      ∷ (on_application_shutdown, provider_of 1 11)
      ∷ (on_module_destroy, module_of 2 102)
      ∷ (on_module_destroy, module_of 1 101)
      ∷ (on_module_destroy, provider_of 2 12)
      ∷ (on_module_destroy, provider_of 1 11)
      ∷ []
unfolding program
failing_startup = refl

up_app_is_up : up_app.initialized ≡ true
unfolding program
up_app_is_up = refl

shutdown-eq_example : shutdown classes (node 1 1 ∷ []) up_app ≡ (
  teardown_failures classes (node 1 1 ∷ []) up_app.module_instances up_app.world.container,
  forget_instances (
      with_calls classes up_app.world
        (teardown_calls classes (node 1 1 ∷ []) up_app.module_instances up_app.world.container)),
)
shutdown-eq_example =
    shutdown-eq classes (node 1 1 ∷ []) up_app up_app_is_up (λ hook i container. refl)

startup-eq_example :
    startup classes (node 1 1 ∷ node 2 2 ∷ []) fresh
    ≡ startup_result classes
        (node 1 1 ∷ node 2 2 ∷ [])
        fresh
        (instantiate_lifecycle_modules classes (node 1 1 ∷ node 2 2 ∷ []) [])
startup-eq_example =
    startup-eq classes (node 1 1 ∷ node 2 2 ∷ []) fresh refl (λ hook i container. refl)

abbrev down_app : App
down_app = (shutdown classes (node 1 1 ∷ []) up_app).1

down_app_is_down : down_app.closed ≡ true
unfolding program
down_app_is_down = refl

-- An override of the binding of the token 1, registered after the shutdown, is its singleton.
abbrev overridden : Container
overridden = record down_app.world.container {
  singletons = ((1, 1), 50) ∷ [];
  overrides = ((1, 1), 50) ∷ [];
}

override_after_shutdown : override classes (1, 1) 50 down_app.world.container ≡ some overridden
unfolding program
override_after_shutdown = refl

abbrev overridden_app : App
overridden_app = record down_app { world = record down_app.world { container = overridden } }

clear_after_shutdown : clear_override classes (1, 1) overridden ≡ some down_app.world.container
unfolding program
clear_after_shutdown = refl

Reach-IsClosed_example : IsClosed overridden_app
Reach-IsClosed_example =
    Reach-IsClosed classes (node 1 1 ∷ []) refl
      (next (next (next here starts) stops)
        (overrides (1, 1) 50 overridden override_after_shutdown))
      down_app_is_down

constructed_instances-IsDistinct_example :
    IsDistinct (map instance_of (constructed_instances classes up_app.world.container))
    × ((j : ℕ)
        → contains (map instance_of (constructed_instances classes up_app.world.container)) j ≡ (
            any (is_built classes j) up_app.world.container.singletons
            || any
                (is_built classes j)
                (without_partition classes up_app.world.container.durable_instances)))
constructed_instances-IsDistinct_example =
    constructed_instances-IsDistinct classes up_app.world.container
