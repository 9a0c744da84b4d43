-- ===== src/Lifecycle/Startup.antt =====
-- A whole startup over quiet hooks: the hooks that it calls, where it stops, and what it undoes.
use bustan.Prelude.{ℕ, ◌≡◌, refl, ap, ◌∙◌, true, false, Option, none, some, List, []}
use bustan.OrderedDict.{OrderedDict}
use bustan.Lifecycle.Runner.{
  HookName, on_module_init, on_application_bootstrap, ModuleNode, Participant, Classes, World,
  LifecycleError, module_failed, Stage, completed, raised, Modules, built, refused,
  instantiate_lifecycle_modules, warm_up_providers, run_init_stage, run_bootstrap_hooks,
}
use bustan.Lifecycle.Manager.{
  App, Startup, running, failed, startup, finish_startup, start_modules, forget_instances,
  with_shut_down, with_started,
}
use bustan.Lifecycle.Stages.{IsQuiet, with_calls, teardown_calls, teardown_failures, tear_down-eq}
use bustan.Lifecycle.Cycle.{startup_idle}
use bustan.Lifecycle.Failures.{
  until_failure, after_calls, startup_calls, run_stage, run_stage-raised, stages-eq,
}

module _ (c : Classes) where
  module _ (nodes : List ModuleNode) (instances : OrderedDict ℕ ℕ) where
    -- A startup that failed, undone.
    unfoldable pub undone : LifecycleError → World → Startup × App
    undone e w = (
      failed e (teardown_failures c nodes instances w.container),
      forget_instances (with_calls c w (teardown_calls c nodes instances w.container)),
    )

    -- How the hooks leave an application.
    unfoldable pub after_hooks :
        World → List (HookName × Participant) × Option LifecycleError → Startup × App
    after_hooks w (calls, none) = (
      running instances,
      record {
        initialized = true;
        closed = false;
        module_instances = instances;
        world = with_started true (with_calls c w calls);
      },
    )
    after_hooks w (calls, some e) = undone e (with_calls c w calls)

    -- How the warm-up of the providers does, and all that follows.
    unfoldable pub after_warm_up : Stage → Startup × App
    after_warm_up (raised e w) = undone e w
    after_warm_up (completed errors w) =
        after_hooks w (until_failure c w.container (startup_calls c nodes instances w.container))

    finish-undone :
        (e : LifecycleError) (w : World)
        → IsQuiet c
        → finish_startup c nodes instances (raised e w) ≡ undone e w
    unfolding finish_startup undone
    finish-undone e w quiet =
        ap (λ (r : List LifecycleError × World). (failed e r.0, forget_instances r.1))
          (tear_down-eq c nodes instances w quiet)

    finish-after_hooks :
        (errors : List LifecycleError) (w : World)
        (made : List (HookName × Participant) × Option LifecycleError)
        → IsQuiet c
        → finish_startup c nodes instances (after_calls c errors w made) ≡ after_hooks w made
    unfolding finish_startup after_hooks
    finish-after_hooks errors w (calls, none) quiet = refl
    finish-after_hooks errors w (calls, some e) quiet = finish-undone e (with_calls c w calls) quiet

    finish-after_warm_up :
        (warm : Stage)
        → IsQuiet c
        → finish_startup c nodes instances (
            run_stage c nodes instances on_application_bootstrap
              (run_stage c nodes instances on_module_init warm))
          ≡ after_warm_up warm
    unfolding after_warm_up
    finish-after_warm_up (raised e w) quiet =
        ap
          (λ stage.
            finish_startup c nodes instances
              (run_stage c nodes instances on_application_bootstrap stage))
          (run_stage-raised c nodes instances on_module_init e w)
        ∙ ap (finish_startup c nodes instances)
            (run_stage-raised c nodes instances on_application_bootstrap e w)
        ∙ finish-undone e w quiet
    finish-after_warm_up (completed errors w) quiet =
        ap (finish_startup c nodes instances) (stages-eq c nodes instances errors w quiet)
        ∙ finish-after_hooks errors w
            (until_failure c w.container (startup_calls c nodes instances w.container)) quiet

  -- What a startup of an application that is not running owes, by how its modules are built.
  unfoldable pub startup_result : List ModuleNode → App → Modules → Startup × App
  startup_result nodes app (refused key) = (failed (module_failed key) [], app)
  startup_result nodes app (built instances) =
      after_warm_up nodes instances
        (warm_up_providers c nodes (completed [] (with_shut_down false app.world)))

  start_modules-eq :
      (nodes : List ModuleNode) (app : App) (modules : Modules)
      → IsQuiet c
      → start_modules c nodes app modules ≡ startup_result nodes app modules
  unfolding start_modules startup_result run_init_stage run_bootstrap_hooks
  start_modules-eq nodes app (refused key) quiet = refl
  start_modules-eq nodes app (built instances) quiet =
      finish-after_warm_up nodes instances
        (warm_up_providers c nodes (completed [] (with_shut_down false app.world))) quiet

  -- With hooks that leave the container as it is, a startup of an application that is not running
  -- leaves it as it was if a module cannot be built. Else it lifts the refusal and warms the
  -- providers up, then calls the initialization hooks of the modules and of what the container built
  -- and then their bootstrap hooks, in order and up to the first that fails. If none fails the
  -- application runs and refuses overrides. If one does, or the warm-up did, every teardown hook of
  -- what was built is called, the errors of these are reported beside the failure, and the
  -- application is closed.
  pub startup-eq :
      (nodes : List ModuleNode) (app : App)
      → app.initialized ≡ false
      → IsQuiet c
      → startup c nodes app ≡ startup_result nodes app (instantiate_lifecycle_modules c nodes [])
  startup-eq nodes app idle quiet =
      startup_idle c nodes app idle
      ∙ start_modules-eq nodes app (instantiate_lifecycle_modules c nodes []) quiet
