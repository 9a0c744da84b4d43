-- ===== src/Lifecycle/Restarts.antt =====
-- The cycle of startups, shutdowns and overrides: an application is running, or closed, and then
-- caches nothing but the overrides that were registered.
use bustan.Prelude.{
  ℕ, ◌≡◌, refl, sym, ap, ◌∙◌, true, false, none, some, List, [], ◌∷◌, ◌==◌, nat_eq, pair_eq,
  Bool-cases, inl, inr, subst, if_ind, keep, if◌then◌else◌, arith, beq_refl, beq→eq,
}
use mathlib.Core.Bool.{true≢false}
use bustan.OrderedDict.{OrderedDict, get, set, remove}
use bustan.OrderedDict.Lookup.{get-set, get-remove}
use bustan.OrderedDict.Values.{Entries, Entries-set}
use bustan.Lifecycle.Runner.{BindingKey, ModuleNode, Classes, Container, World}
use bustan.Lifecycle.Manager.{App, Startup, startup, shutdown}
use bustan.Lifecycle.Overrides.{
  stays, durable_stays, evict_reach, seat_singleton, override, clear_override,
}
use bustan.Lifecycle.Cycle.{
  IsClosed, IsEmptied, StartupEnds, up, unbuilt, undone, startup_running, startup-StartupEnds,
  shutdown_idle, shutdown-IsClosed,
}

abbrev with_container : Container → App → App
with_container container app = record app { world = record app.world { container = container } }

other_way : (key k : BindingKey) → (k == key) ≡ false → (key == k) ≡ false
other_way key k other = elim (Bool-cases (key == k)) [
  | inr differs ↦ differs
  | inl same ↦
      let one : key ≡ k = beq→eq same in
      absurd (true≢false (sym (beq_refl key) ∙ ap (λ q. q == key) one ∙ other))
]

module _ (c : Classes) (nodes : List ModuleNode) where
  -- What happens to an application: a startup, a shutdown, an override that is registered or cleared,
  -- and anything that its requests do to a container that is not shut down.
  pub data Step (app : App) : App → Type 0 where
    starts : Step app (startup c nodes app).1
    stops : Step app (shutdown c nodes app).1
    serves :
        (w : World) → app.world.container.shut_down ≡ false → Step app (record app { world = w })
    overrides :
        (key : BindingKey) (value : ℕ) (container : Container)
        → override c key value app.world.container ≡ some container
        → Step app (with_container container app)
    clears :
        (key : BindingKey) (container : Container)
        → clear_override c key app.world.container ≡ some container
        → Step app (with_container container app)

  pub data Reach (app : App) : App → Type 0 where
    here : Reach app app
    next : {before after : App} → Reach app before → Step before after → Reach app after

  abbrev pub IsValid : App → Type 0
  IsValid app = app.closed ≡ true → IsClosed app

  StartupEnds-IsValid :
      {app : App} {r : Startup × App} → StartupEnds c nodes app r → IsValid app → IsValid r.1
  StartupEnds-IsValid (up instances after h) v =
      λ closed. absurd (true≢false (sym closed ∙ h.unmarked))
  StartupEnds-IsValid (unbuilt error) v = v
  StartupEnds-IsValid (undone error errors after h) v = λ closed. h

  startup-IsValid : (app : App) → IsValid app → IsValid (startup c nodes app).1
  startup-IsValid app h = elim (Bool-cases app.initialized) [
    | inl is_up ↦ subst (λ r. IsValid r.1) (sym (startup_running c nodes app is_up)) h
    | inr idle ↦ StartupEnds-IsValid (startup-StartupEnds c nodes app idle) h
  ]

  shutdown-IsValid : (app : App) → IsValid app → IsValid (shutdown c nodes app).1
  shutdown-IsValid app h = elim (Bool-cases app.initialized) [
    | inl is_up ↦ λ closed. shutdown-IsClosed c nodes app is_up
    | inr idle ↦ subst (λ r. IsValid r.1) (sym (shutdown_idle c nodes app idle)) h
  ]

  -- What stays after an override of another binding has its own override still.
  kept_overrides :
      (key : BindingKey) (changed : OrderedDict BindingKey ℕ) (d : OrderedDict BindingKey ℕ)
      (container : Container)
      → ((k : BindingKey) → (k == key) ≡ false → get k changed ≡ get k container.overrides)
      → Entries (λ k i. get k container.overrides ≡ some i) d
      → Entries (λ k i. get k changed ≡ some i) (keep (stays c key) d)
  kept_overrides key changed [] container same held = tt
  kept_overrides key changed ((k, i) ∷ d) container same held =
      let rest = kept_overrides key changed d container same held.1 in
      if_ind (Entries (λ k i. get k changed ≡ some i)) (stays c key (k, i))
        (λ stayed. (same k (ground (arith, stayed)) ∙ held.0, rest)) (λ gone. rest)

  evict_reach-IsEmptied :
      (key : BindingKey) (changed : OrderedDict BindingKey ℕ) (container : Container)
      → ((k : BindingKey) → (k == key) ≡ false → get k changed ≡ get k container.overrides)
      → IsEmptied container
      → IsEmptied (evict_reach c key (record container { overrides = changed }))
  unfolding evict_reach
  evict_reach-IsEmptied key changed container same h = record {
    only_overrides =
        kept_overrides key changed container.singletons container same h.only_overrides;
    no_durables = ap (keep (durable_stays c key)) h.no_durables;
    no_controllers = refl;
    refuses = h.refuses;
    open_to_overrides = h.open_to_overrides;
  }

  seat_singleton-IsEmptied :
      (key : BindingKey) (value : ℕ) (container : Container)
      → get key container.overrides ≡ some value
      → IsEmptied container
      → IsEmptied (seat_singleton c key value container)
  unfolding seat_singleton
  seat_singleton-IsEmptied key value container own h =
      if_ind IsEmptied (c.is_singleton key)
        (λ single. record {
          only_overrides =
              Entries-set (λ k i. get k container.overrides ≡ some i) key value container.singletons
                own h.only_overrides;
          no_durables = h.no_durables;
          no_controllers = h.no_controllers;
          refuses = h.refuses;
          open_to_overrides = h.open_to_overrides;
        })
        (λ other. h)

  override-IsEmptied :
      (key : BindingKey) (value : ℕ) (container after : Container)
      → IsEmptied container
      → override c key value container ≡ some after
      → IsEmptied after
  unfolding override
  override-IsEmptied key value container after h e =
      let changed = set key value container.overrides in
      let evicted = evict_reach c key (record container { overrides = changed }) in
      let stored : seat_singleton c key value evicted ≡ after =
        ground (arith, h.open_to_overrides, e) in
      subst IsEmptied stored (
        seat_singleton-IsEmptied key value evicted
          (unfold evict_reach in
            get-set key key value container.overrides
            ∙ ap (λ b. if b then some value else get key container.overrides) (beq_refl key))
          (evict_reach-IsEmptied key changed container
            (λ k other.
              get-set key k value container.overrides
              ∙ ap (λ b. if b then some value else get k container.overrides)
                  (other_way key k other))
            h))

  clear_override-IsEmptied :
      (key : BindingKey) (container after : Container)
      → IsEmptied container
      → clear_override c key container ≡ some after
      → IsEmptied after
  unfolding clear_override
  clear_override-IsEmptied key container after h e =
      let changed = remove key container.overrides in
      let stored : evict_reach c key (record container { overrides = changed }) ≡ after =
        ground (arith, h.open_to_overrides, e) in
      subst IsEmptied stored (
        evict_reach-IsEmptied key changed container
          (λ k other.
            get-remove key k container.overrides
            ∙ ap (λ b. if b then none else get k container.overrides) (other_way key k other))
          h)

  overridden :
      (app : App) (container : Container)
      → (IsEmptied app.world.container → IsEmptied container)
      → IsValid app
      → IsValid (with_container container app)
  overridden app container keeps h = λ closed.
      let was = h closed in
      record { stopped = was.stopped; marked = was.marked; emptied = keeps was.emptied }

  Step-IsValid : {before after : App} → Step before after → IsValid before → IsValid after
  Step-IsValid {before} starts h = startup-IsValid before h
  Step-IsValid {before} stops h = shutdown-IsValid before h
  Step-IsValid (serves w open_up) h =
      λ closed. absurd (true≢false (sym (h closed).emptied.refuses ∙ open_up))
  Step-IsValid {before} (overrides key value container done) h =
      overridden before container
        (λ emptied. override-IsEmptied key value before.world.container container emptied done) h
  Step-IsValid {before} (clears key container done) h =
      overridden before container
        (λ emptied. clear_override-IsEmptied key before.world.container container emptied done) h

  -- However often an application that is not closed yet is started and stopped, and its overrides are
  -- registered and cleared, and whatever its requests do to a container that is not shut down: while
  -- it is closed, resolution is refused, overrides may be registered, no durable instance and no
  -- controller is cached, and every singleton that is cached is the value of an override in force.
  pub Reach-IsClosed :
      {app after : App}
      → app.closed ≡ false
      → Reach app after
      → after.closed ≡ true
      → IsClosed after
  Reach-IsClosed fresh here = λ closed. absurd (true≢false (sym closed ∙ fresh))
  Reach-IsClosed {app} fresh (next r step) = Step-IsValid step (Reach-IsClosed fresh r)
