-- ===== src/Lifecycle/Stages.antt =====
-- The stages of hooks: every hook of a teardown is called once and in order, whichever of them fail.
use bustan.Prelude.{
  ℕ, ◌≡◌, refl, ap, ◌∙◌, true, not, ◌&&◌, List, [], ◌∷◌, ◌++◌, map, keep, reverse, Bool-cases, inl,
  inr, keep-append,
}
use mathlib.Core.List.{append-nil, append_assoc, map-append}
use bustan.OrderedDict.{OrderedDict}
use bustan.Lifecycle.Runner.{
  HookName, on_module_destroy, on_application_shutdown, before_application_shutdown, ModuleNode,
  Container, Participant, instance_of, Classes, World, LifecycleError, hook_failed, Stage,
  completed, module_participants, try_hook, run_hooks, constructed_instances,
  run_provider_lifecycle_stage, run_teardown_stage,
}
use bustan.Lifecycle.Manager.{collected, tear_down}

module _ (c : Classes) where
  -- The hooks that a stage calls.
  unfoldable pub calls_of : HookName → List Participant → List (HookName × Participant)
  calls_of hook ps = map (λ p. (hook, p)) (keep (λ p. c.has_hook hook (instance_of p)) ps)

  -- The hooks of a stage that fail on a container.
  unfoldable pub failures_of : Container → HookName → List Participant → List LifecycleError
  failures_of container hook ps =
      map (λ p. hook_failed hook p)
        (keep
          (λ p.
            c.has_hook hook (instance_of p) && not (c.run_hook hook (instance_of p) container).0)
          ps)

  -- Hooks that leave the container as it is.
  abbrev pub IsQuiet : Type 0
  IsQuiet =
      (hook : HookName) (i : ℕ) (container : Container)
      → (c.run_hook hook i container).1 ≡ container

  abbrev pub with_calls : World → List (HookName × Participant) → World
  with_calls w calls = record w { calls = w.calls ++ calls }

  try_hook-eq :
      (hook : HookName) (p : Participant) (errors : List LifecycleError) (w : World)
      → IsQuiet
      → try_hook c true hook p (completed errors w)
        ≡ completed
            (errors ++ failures_of w.container hook (p ∷ []))
            (with_calls w (calls_of hook (p ∷ [])))
  unfolding try_hook failures_of calls_of
  try_hook-eq hook p errors w quiet = elim (Bool-cases (c.has_hook hook (instance_of p))) [
    | inr lacks ↦ rw (lacks, append-nil errors, append-nil w.calls) refl
    | inl has ↦ elim (Bool-cases (c.run_hook hook (instance_of p) w.container).0) [
      | inl fine ↦ rw (has, fine, quiet hook (instance_of p) w.container, append-nil errors) refl
      | inr fails ↦ rw (has, fails, quiet hook (instance_of p) w.container) refl
    ]
  ]

  pub calls_of-append :
      (hook : HookName) (ps qs : List Participant)
      → calls_of hook (ps ++ qs) ≡ calls_of hook ps ++ calls_of hook qs
  unfolding calls_of
  calls_of-append hook ps qs =
      rw (keep-append (λ p. c.has_hook hook (instance_of p)) ps qs) (map-append _ _ _)

  failures_of-append :
      (container : Container) (hook : HookName) (ps qs : List Participant)
      → failures_of container hook (ps ++ qs)
        ≡ failures_of container hook ps ++ failures_of container hook qs
  unfolding failures_of
  failures_of-append container hook ps qs = rw (keep-append _ ps qs) (map-append _ _ _)

  -- A stage of teardown over quiet hooks: what it is left with.
  abbrev after_stage : HookName → List Participant → List LifecycleError → World → Stage
  after_stage hook ps errors w =
      completed (errors ++ failures_of w.container hook ps) (with_calls w (calls_of hook ps))

  after_stage-append :
      (hook : HookName) (ps qs : List Participant) (errors : List LifecycleError) (w : World)
      → after_stage hook qs
          (errors ++ failures_of w.container hook ps)
          (with_calls w (calls_of hook ps))
        ≡ after_stage hook (ps ++ qs) errors w
  after_stage-append hook ps qs errors w =
      rw
        (
          calls_of-append hook ps qs,
          failures_of-append w.container hook ps qs,
          append_assoc errors (failures_of w.container hook ps) (failures_of w.container hook qs),
          append_assoc w.calls (calls_of hook ps) (calls_of hook qs),
        )
        refl

  run_hooks-eq :
      (hook : HookName) (ps : List Participant) (errors : List LifecycleError) (w : World)
      → IsQuiet
      → run_hooks c true hook ps (completed errors w) ≡ after_stage hook ps errors w
  unfolding run_hooks
  run_hooks-eq hook [] errors w quiet =
      unfold failures_of in unfold calls_of in rw (append-nil errors, append-nil w.calls) refl
  run_hooks-eq hook (p ∷ ps) errors w quiet =
      ap (run_hooks c true hook ps) (try_hook-eq hook p errors w quiet)
      ∙ run_hooks-eq hook ps (errors ++ failures_of w.container hook (p ∷ []))
          (with_calls w (calls_of hook (p ∷ []))) quiet
      ∙ after_stage-append hook (p ∷ []) ps errors w

  module _ (nodes : List ModuleNode) (instances : OrderedDict ℕ ℕ) where
    -- Who takes part in a teardown, in its order: the modules last first, then what the container
    -- built last first.
    unfoldable pub teardown_order : Container → List Participant
    teardown_order container =
        module_participants (reverse nodes) instances ++ reverse (constructed_instances c container)

    run_teardown_stage-eq :
        (hook : HookName) (errors : List LifecycleError) (w : World)
        → IsQuiet
        → run_teardown_stage c hook nodes instances (completed errors w)
          ≡ after_stage hook (teardown_order w.container) errors w
    unfolding run_teardown_stage teardown_order run_provider_lifecycle_stage
    run_teardown_stage-eq hook errors w quiet =
        let modules = module_participants (reverse nodes) instances in
        ap (run_provider_lifecycle_stage c true true hook)
          (run_hooks-eq hook modules errors w quiet)
        ∙ run_hooks-eq hook (reverse (constructed_instances c w.container))
            (errors ++ failures_of w.container hook modules) (with_calls w (calls_of hook modules))
            quiet
        ∙ after_stage-append hook modules (reverse (constructed_instances c w.container)) errors w

    -- The calls of a whole teardown, and the errors that it meets.
    unfoldable pub teardown_calls : Container → List (HookName × Participant)
    teardown_calls container =
        let order = teardown_order container in
        calls_of before_application_shutdown order
        ++ calls_of on_application_shutdown order
        ++ calls_of on_module_destroy order

    unfoldable pub teardown_failures : Container → List LifecycleError
    teardown_failures container =
        let order = teardown_order container in
        failures_of container before_application_shutdown order
        ++ failures_of container on_application_shutdown order
        ++ failures_of container on_module_destroy order

    pub tear_down-eq :
        (w : World)
        → IsQuiet
        → tear_down c nodes instances w
          ≡ (teardown_failures w.container, with_calls w (teardown_calls w.container))
    unfolding tear_down teardown_calls teardown_failures
    tear_down-eq w quiet =
        let order = teardown_order w.container in
        let first = before_application_shutdown in
        let second = on_application_shutdown in
        let last = on_module_destroy in
        let later = λ (hook : HookName). run_teardown_stage c hook nodes instances in
        let one = with_calls w (calls_of first order) in
        let two = with_calls one (calls_of second order) in
        let failed_first = failures_of w.container first order in
        let failed_second = failures_of w.container second order in
        ap (λ stage. collected (later last (later second stage)))
          (run_teardown_stage-eq first [] w quiet)
        ∙ ap (λ stage. collected (later last stage))
            (run_teardown_stage-eq second failed_first one quiet)
        ∙ ap collected (run_teardown_stage-eq last (failed_first ++ failed_second) two quiet)
        ∙ rw
            (
              append_assoc failed_first failed_second (failures_of w.container last order),
              append_assoc w.calls (calls_of first order) (calls_of second order),
              append_assoc w.calls (calls_of first order ++ calls_of second order)
                  (calls_of last order),
              append_assoc (calls_of first order) (calls_of second order) (calls_of last order),
            )
            refl
