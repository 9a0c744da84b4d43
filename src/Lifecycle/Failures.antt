-- ===== src/Lifecycle/Failures.antt =====
-- The hooks of a startup over quiet hooks: they are called in order up to the first that fails.
use bustan.Prelude.{
  ℕ, ◌≡◌, refl, sym, ap, ◌∙◌, false, Option, none, some, List, [], ◌∷◌, ◌++◌, Bool-cases, inl, inr,
  if◌then◌else◌,
}
use mathlib.Core.List.{append-nil, append_assoc}
use bustan.OrderedDict.{OrderedDict}
use bustan.Lifecycle.Runner.{
  HookName, on_module_init, on_application_bootstrap, ModuleNode, Container, Participant,
  instance_of, Classes, World, LifecycleError, hook_failed, Stage, completed, raised,
  module_participants, try_hook, run_hooks, run_lifecycle_stage, constructed_instances,
  run_provider_lifecycle_stage,
}
use bustan.Lifecycle.Stages.{IsQuiet, calls_of, calls_of-append, with_calls}

module _ (c : Classes) where
  -- The calls that are made of those that are due, up to the first that fails, and its error.
  unfoldable pub until_failure :
      Container
      → List (HookName × Participant)
      → List (HookName × Participant) × Option LifecycleError
  until_failure container [] = ([], none)
  until_failure container ((hook, p) ∷ due) =
      let (calls, error) = until_failure container due in
      if (c.run_hook hook (instance_of p) container).0
      then ((hook, p) ∷ calls, error)
      else ((hook, p) ∷ [], some (hook_failed hook p))

  -- A stage that made some calls, of which the last may have failed.
  abbrev pub after_calls :
      List LifecycleError → World → List (HookName × Participant) × Option LifecycleError → Stage
  after_calls errors w (calls, none) = completed errors (with_calls c w calls)
  after_calls errors w (calls, some e) = raised e (with_calls c w calls)

  after_calls-cons :
      (errors : List LifecycleError) (w : World) (call : HookName × Participant)
      (calls : List (HookName × Participant)) (error : Option LifecycleError)
      → after_calls errors (with_calls c w (call ∷ [])) (calls, error)
        ≡ after_calls errors w (call ∷ calls, error)
  after_calls-cons errors w call calls none = rw (append_assoc w.calls (call ∷ []) calls) refl
  after_calls-cons errors w call calls (some e) = rw (append_assoc w.calls (call ∷ []) calls) refl

  pub run_hooks-raised :
      (hook : HookName) (ps : List Participant) (e : LifecycleError) (w : World)
      → run_hooks c false hook ps (raised e w) ≡ raised e w
  unfolding run_hooks try_hook
  run_hooks-raised hook [] e w = refl
  run_hooks-raised hook (p ∷ ps) e w = run_hooks-raised hook ps e w

  run_hooks-until_failure :
      (hook : HookName) (ps : List Participant) (errors : List LifecycleError) (w : World)
      → IsQuiet c
      → run_hooks c false hook ps (completed errors w)
        ≡ after_calls errors w (until_failure w.container (calls_of c hook ps))
  unfolding run_hooks try_hook calls_of until_failure
  run_hooks-until_failure hook [] errors w quiet = rw (append-nil w.calls) refl
  run_hooks-until_failure hook (p ∷ ps) errors w quiet =
      let rest = until_failure w.container (calls_of c hook ps) in
      elim (Bool-cases (c.has_hook hook (instance_of p))) [
        | inr lacks ↦ rw lacks (run_hooks-until_failure hook ps errors w quiet)
        | inl has ↦ elim (Bool-cases (c.run_hook hook (instance_of p) w.container).0) [
          | inl fine ↦
              rw (has, fine, quiet hook (instance_of p) w.container)
                (run_hooks-until_failure hook ps errors (with_calls c w ((hook, p) ∷ [])) quiet
                  ∙ after_calls-cons errors w (hook, p) rest.0 rest.1)
          | inr fails ↦
              rw (has, fails, quiet hook (instance_of p) w.container)
                (run_hooks-raised hook ps (hook_failed hook p) (with_calls c w ((hook, p) ∷ [])))
        ]
      ]

  -- A step that raised errors leave alone, and that makes the calls `after`, makes them once those
  -- `before` are over.
  until_failure-append :
      (step : Stage → Stage) (after before : List (HookName × Participant))
      (errors : List LifecycleError) (w : World)
      → ((e : LifecycleError) (v : World) → step (raised e v) ≡ raised e v)
      → ((v : World)
          → v.container ≡ w.container
          → step (completed errors v) ≡ after_calls errors v (until_failure w.container after))
      → step (after_calls errors w (until_failure w.container before))
        ≡ after_calls errors w (until_failure w.container (before ++ after))
  unfolding until_failure
  until_failure-append step after [] errors w stays makes = rw (append-nil w.calls) (makes w refl)
  until_failure-append step after ((hook, p) ∷ before) errors w stays makes =
      let next = with_calls c w ((hook, p) ∷ []) in
      let made = until_failure w.container before in
      let all = until_failure w.container (before ++ after) in
      elim (Bool-cases (c.run_hook hook (instance_of p) w.container).0) [
        | inl fine ↦ rw fine (
            ap step (sym (after_calls-cons errors w (hook, p) made.0 made.1))
            ∙ until_failure-append step after before errors next stays makes
            ∙ after_calls-cons errors w (hook, p) all.0 all.1)
        | inr fails ↦ rw fails (stays (hook_failed hook p) next)
      ]

  module _ (nodes : List ModuleNode) (instances : OrderedDict ℕ ℕ) where
    -- Who takes part in a startup, in its order: the modules, then what the container built.
    unfoldable pub startup_order : Container → List Participant
    startup_order container =
        module_participants nodes instances ++ constructed_instances c container

    -- The calls that a startup owes once the providers are warm.
    unfoldable pub startup_calls : Container → List (HookName × Participant)
    startup_calls container =
        calls_of c on_module_init (startup_order container)
        ++ calls_of c on_application_bootstrap (startup_order container)

    abbrev pub run_stage : HookName → Stage → Stage
    run_stage hook stage =
        run_provider_lifecycle_stage c false false hook
          (run_lifecycle_stage c false hook nodes instances stage)

    pub run_stage-raised :
        (hook : HookName) (e : LifecycleError) (w : World)
        → run_stage hook (raised e w) ≡ raised e w
    unfolding run_provider_lifecycle_stage
    run_stage-raised hook e w =
        ap (run_provider_lifecycle_stage c false false hook)
          (run_hooks-raised hook (module_participants nodes instances) e w)

    run_stage-eq :
        (hook : HookName) (errors : List LifecycleError) (w : World)
        → IsQuiet c
        → run_stage hook (completed errors w)
          ≡ after_calls errors w
              (until_failure w.container (calls_of c hook (startup_order w.container)))
    unfolding run_provider_lifecycle_stage startup_order
    run_stage-eq hook errors w quiet =
        let modules = module_participants nodes instances in
        let providers = constructed_instances c w.container in
        ap (run_provider_lifecycle_stage c false false hook)
          (run_hooks-until_failure hook modules errors w quiet)
        ∙ until_failure-append (run_provider_lifecycle_stage c false false hook)
            (calls_of c hook providers) (calls_of c hook modules) errors w (λ e v. refl)
            (λ v same.
              run_hooks-until_failure hook (constructed_instances c v.container) errors v quiet
              ∙ ap
                  (λ container.
                    after_calls errors v (
                      until_failure container
                        (calls_of c hook (constructed_instances c container))))
                  same)
        ∙ ap (λ due. after_calls errors w (until_failure w.container due))
            (sym (calls_of-append c hook modules providers))

    pub stages-eq :
        (errors : List LifecycleError) (w : World)
        → IsQuiet c
        → run_stage on_application_bootstrap (run_stage on_module_init (completed errors w))
          ≡ after_calls errors w (until_failure w.container (startup_calls w.container))
    unfolding startup_calls
    stages-eq errors w quiet =
        ap (run_stage on_application_bootstrap) (run_stage-eq on_module_init errors w quiet)
        ∙ until_failure-append (run_stage on_application_bootstrap)
            (calls_of c on_application_bootstrap (startup_order w.container))
            (calls_of c on_module_init (startup_order w.container)) errors w
            (run_stage-raised on_application_bootstrap)
            (λ v same.
              run_stage-eq on_application_bootstrap errors v quiet
              ∙ ap
                  (λ container. after_calls errors v (
                    until_failure container
                      (calls_of c on_application_bootstrap (startup_order container))))
                  same)
