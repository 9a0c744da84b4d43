-- ===== src/Lifecycle/Manager.antt =====
-- kernel/lifecycle/manager.py: `LifecycleManager`, the startup and the shutdown of an application.
use bustan.Prelude.{ℕ, suc, Bool, true, false, if◌then◌else◌, List, [], ◌∷◌}
use bustan.OrderedDict.{OrderedDict}
use bustan.Lifecycle.Runner.{
  before_application_shutdown, on_application_shutdown, on_module_destroy, ModuleNode, Classes,
  World, LifecycleError, module_failed, Stage, completed, raised, Modules, built, refused,
  instantiate_lifecycle_modules, run_init_stage, run_bootstrap_hooks, run_teardown_stage,
}

-- `LifecycleState`, with the world that the manager runs in.
pub record App : Type 0 where
  pub initialized : Bool
  pub closed : Bool
  pub module_instances : OrderedDict ℕ ℕ
  pub world : World

-- What `startup` returns; an error carries those that undoing it met.
pub data Startup : Type 0 where
  running : OrderedDict ℕ ℕ → Startup
  failed : LifecycleError → List LifecycleError → Startup

-- A teardown collects its errors and never raises one.
abbrev pub collected : Stage → List LifecycleError × World
collected (completed errors w) = (errors, w)
collected (raised e w) = (e ∷ [], w)

-- `_forget_instances`
unfoldable pub forget_instances : World → App
forget_instances w = record {
  initialized = false;
  closed = true;
  module_instances = [];
  world = record w {
    container = record {
      singletons = [];
      durable_instances = [];
      controller_singletons = [];
      shut_down = true;
      instance_generation = suc w.container.instance_generation;
      started = false;
      overrides = w.container.overrides;
    };
  };
}

abbrev pub with_shut_down : Bool → World → World
with_shut_down b w = record w { container = record w.container { shut_down = b } }

abbrev pub with_started : Bool → World → World
with_started b w = record w { container = record w.container { started = b } }

module _ (c : Classes) (nodes : List ModuleNode) where
  -- `_tear_down`
  unfoldable pub tear_down : OrderedDict ℕ ℕ → World → List LifecycleError × World
  tear_down instances w = collected (
      run_teardown_stage c on_module_destroy nodes instances (
        run_teardown_stage c on_application_shutdown nodes instances
          (run_teardown_stage c before_application_shutdown nodes instances (completed [] w))))

  -- The end of `startup`, by how its stages ended.
  unfoldable pub finish_startup : OrderedDict ℕ ℕ → Stage → Startup × App
  finish_startup instances (completed errors w) = (
    running instances,
    record {
      initialized = true;
      closed = false;
      module_instances = instances;
      world = with_started true w;
    },
  )
  finish_startup instances (raised failure w) =
      let (errors, after) = tear_down instances w in (failed failure errors, forget_instances after)

  -- `startup`, of an application that is not running, once its modules are built.
  unfoldable pub start_modules : App → Modules → Startup × App
  start_modules app (refused key) = (failed (module_failed key) [], app)
  start_modules app (built instances) = finish_startup instances (
      run_bootstrap_hooks c nodes instances
        (run_init_stage c nodes instances (completed [] (with_shut_down false app.world))))

  -- `startup`
  unfoldable pub startup : App → Startup × App
  startup app =
      if app.initialized
      then (running app.module_instances, app)
      else start_modules app (instantiate_lifecycle_modules c nodes [])

  -- `shutdown`: the errors that it raises, alone or as a group.
  unfoldable pub shutdown : App → List LifecycleError × App
  shutdown app =
      let (errors, after) = tear_down app.module_instances app.world in
      if app.initialized then (errors, forget_instances after) else ([], app)
