-- ===== src/Lifecycle/Overrides.antt =====
-- kernel/ioc/overrides.py: registering and clearing the override of one binding, which
-- `_binding_identity` found. Which bindings hold it is read of the binding table, `depends_on` of the
-- application's classes.
use bustan.Prelude.{
  ℕ, Bool, not, ◌||◌, Option, none, some, [], ◌==◌, nat_eq, pair_eq, keep, if◌then◌else◌,
}
use bustan.OrderedDict.{set, remove}
use bustan.Lifecycle.Runner.{BindingKey, Classes, Container}

module _ (c : Classes) where
  -- `_binding_with_dependents`, as a test
  abbrev pub is_invalidated : BindingKey → BindingKey → Bool
  is_invalidated key k = k == key || c.depends_on key k

  -- `_drop_cached`, of the singletons and of the durable instances
  abbrev pub stays : BindingKey → BindingKey × ℕ → Bool
  stays key (k, i) = not (is_invalidated key k)

  abbrev pub durable_stays : BindingKey → (BindingKey × ℕ) × ℕ → Bool
  durable_stays key ((k, partition), i) = not (is_invalidated key k)

  -- `_evict_reach`
  unfoldable pub evict_reach : BindingKey → Container → Container
  evict_reach key container = record container {
    singletons = keep (stays key) container.singletons;
    durable_instances = keep (durable_stays key) container.durable_instances;
    controller_singletons = [];
  }

  -- `_seat_singleton`
  unfoldable pub seat_singleton : BindingKey → ℕ → Container → Container
  seat_singleton key value container =
      let seated = record container { singletons = set key value container.singletons } in
      if c.is_singleton key then seated else container

  -- `override`; `none` is the refusal of `_refuse_after_startup`.
  unfoldable pub override : BindingKey → ℕ → Container → Option Container
  override key value container =
      if container.started
      then none
      else some (
          seat_singleton key value
            (evict_reach key (record container { overrides = set key value container.overrides })))

  -- `clear_override`
  unfoldable pub clear_override : BindingKey → Container → Option Container
  clear_override key container =
      if container.started
      then none
      else some (evict_reach key (record container { overrides = remove key container.overrides }))
