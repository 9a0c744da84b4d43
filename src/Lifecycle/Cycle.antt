-- ===== src/Lifecycle/Cycle.antt =====
-- How a startup and a shutdown end: with an application that runs, or that is closed and caches
-- nothing but overrides.
use bustan.Prelude.{
  ℕ, ◌≡◌, refl, sym, ap, ◌∙◌, some, nat_eq, pair_eq, true, false, List, [], subst, if◌then◌else◌,
}
use bustan.OrderedDict.{OrderedDict, get}
use bustan.OrderedDict.Values.{Entries}
use bustan.Lifecycle.Runner.{
  ModuleNode, Classes, Container, World, LifecycleError, Stage, completed, raised, Modules,
  module_failed, built, refused, instantiate_lifecycle_modules, run_init_stage, run_bootstrap_hooks,
}
use bustan.Lifecycle.Stages.{IsQuiet, teardown_failures, teardown_calls, with_calls, tear_down-eq}
use bustan.Lifecycle.Manager.{
  App, Startup, running, failed, startup, shutdown, finish_startup, start_modules, forget_instances,
  with_shut_down, tear_down,
}

-- Every cached singleton is the value of an override in force.
abbrev pub OnlyOverrides : Container → Type 0
OnlyOverrides container = Entries (λ k i. get k container.overrides ≡ some i) container.singletons

-- Resolution is refused, overrides may be registered again, and nothing else is cached.
pub record IsEmptied (container : Container) : Type 0 where
  pub only_overrides : OnlyOverrides container
  pub no_durables : container.durable_instances ≡ []
  pub no_controllers : container.controller_singletons ≡ []
  pub refuses : container.shut_down ≡ true
  pub open_to_overrides : container.started ≡ false

pub record IsClosed (app : App) : Type 0 where
  pub stopped : app.initialized ≡ false
  pub marked : app.closed ≡ true
  pub emptied : IsEmptied app.world.container

pub record IsRunning (app : App) : Type 0 where
  pub initialized : app.initialized ≡ true
  pub unmarked : app.closed ≡ false
  pub closed_to_overrides : app.world.container.started ≡ true

forget_instances-IsClosed : (w : World) → IsClosed (forget_instances w)
unfolding forget_instances
forget_instances-IsClosed w = record {
  stopped = refl;
  marked = refl;
  emptied = record {
    only_overrides = tt;
    no_durables = refl;
    no_controllers = refl;
    refuses = refl;
    open_to_overrides = refl;
  };
}

module _ (c : Classes) (nodes : List ModuleNode) where
  -- How a startup may end.
  pub data StartupEnds (app : App) : Startup × App → Type 0 where
    up :
        (instances : OrderedDict ℕ ℕ) (after : App)
        → IsRunning after
        → StartupEnds app (running instances, after)
    unbuilt : (error : LifecycleError) → StartupEnds app (failed error [], app)
    undone :
        (error : LifecycleError) (errors : List LifecycleError) (after : App)
        → IsClosed after
        → StartupEnds app (failed error errors, after)

  finish_startup-ends :
      (app : App) (instances : OrderedDict ℕ ℕ) (stage : Stage)
      → StartupEnds app (finish_startup c nodes instances stage)
  unfolding finish_startup
  finish_startup-ends app instances (completed errors w) =
      up instances _ (record { initialized = refl; unmarked = refl; closed_to_overrides = refl })
  finish_startup-ends app instances (raised failure w) =
      undone failure _ _ (forget_instances-IsClosed (tear_down c nodes instances w).1)

  start_modules-ends :
      (app : App) (modules : Modules) → StartupEnds app (start_modules c nodes app modules)
  unfolding start_modules
  start_modules-ends app (refused key) = unbuilt (module_failed key)
  start_modules-ends app (built instances) = finish_startup-ends app instances (
      run_bootstrap_hooks c nodes instances
        (run_init_stage c nodes instances (completed [] (with_shut_down false app.world))))

  pub startup_idle :
      (app : App)
      → app.initialized ≡ false
      → startup c nodes app ≡ start_modules c nodes app (instantiate_lifecycle_modules c nodes [])
  unfolding startup
  startup_idle app idle =
      ap
        (λ b.
          if b
          then (running app.module_instances, app)
          else start_modules c nodes app (instantiate_lifecycle_modules c nodes []))
        idle

  pub startup_running :
      (app : App)
      → app.initialized ≡ true
      → startup c nodes app ≡ (running app.module_instances, app)
  unfolding startup
  startup_running app is_up =
      ap
        (λ b.
          if b
          then (running app.module_instances, app)
          else start_modules c nodes app (instantiate_lifecycle_modules c nodes []))
        is_up

  abbrev torn_down : App → List LifecycleError × App
  torn_down app =
      let (errors, after) = tear_down c nodes app.module_instances app.world in
      (errors, forget_instances after)

  pub shutdown_running : (app : App) → app.initialized ≡ true → shutdown c nodes app ≡ torn_down app
  unfolding shutdown
  shutdown_running app is_up = ap (λ b. if b then torn_down app else ([], app)) is_up

  pub shutdown_idle : (app : App) → app.initialized ≡ false → shutdown c nodes app ≡ ([], app)
  unfolding shutdown
  shutdown_idle app idle = ap (λ b. if b then torn_down app else ([], app)) idle

  -- A startup of an application that is not running ends in one that runs; or, where a module cannot
  -- be built, leaves everything as it was; or, where anything else fails, closes what it opened. It
  -- never leaves an application half open, whatever the hooks do.
  pub startup-StartupEnds :
      (app : App) → app.initialized ≡ false → StartupEnds app (startup c nodes app)
  startup-StartupEnds app idle =
      subst (StartupEnds app) (sym (startup_idle app idle))
        (start_modules-ends app (instantiate_lifecycle_modules c nodes []))

  pub shutdown-IsClosed : (app : App) → app.initialized ≡ true → IsClosed (shutdown c nodes app).1
  shutdown-IsClosed app is_up =
      subst (λ r. IsClosed r.1) (sym (shutdown_running app is_up))
        (forget_instances-IsClosed (tear_down c nodes app.module_instances app.world).1)

  -- With hooks that leave the container as it is, a shutdown of a running application calls every
  -- hook of all three stages, over the modules last first and then the instances last first, answers
  -- with the errors of all that fail, and closes the application.
  pub shutdown-eq :
      (app : App)
      → app.initialized ≡ true
      → IsQuiet c
      → shutdown c nodes app ≡ (
        teardown_failures c nodes app.module_instances app.world.container,
        forget_instances (
            with_calls c app.world
              (teardown_calls c nodes app.module_instances app.world.container)),
      )
  shutdown-eq app is_up quiet =
      shutdown_running app is_up
      ∙ ap (λ r. (r.0, forget_instances r.1))
          (tear_down-eq c nodes app.module_instances app.world quiet)
