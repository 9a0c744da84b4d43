-- ===== src/Routing/Answers.antt =====
-- Which handler a compiled plan gives a request of one version.
use bustan.Prelude.{
  ◌≡◌, ◌↔◌, ◌⊎◌, ◌∙◌, refl, sym, subst, true, some, List, [], ◌∷◌, ◌++◌, list_eq, nat_eq, pair_eq,
  Text, contains, map, All, Among, among_first, among_later, inl, inr, ok, if◌then◌else◌,
}
use bustan.OrderedDict.{OrderedDict}
use bustan.OrderedDict.Values.{Entries}
use bustan.Routing.Versioning.{VersioningOptions}
use bustan.Routing.Contracts.{RouteContract}
use bustan.Routing.Plan.{
  VersionedHandler, dispatching, CompiledRoute, Builder, contract_of, owner_of_first, append,
  append_groups, kind_dispatches, build, compile_route_plan, dispatch,
}
use bustan.Routing.Dispatch.{IsDisjoint, IsVersioned, dispatch_iff}
use bustan.Routing.Groups.{Key, IsGroup, IsHeld}
use bustan.Routing.Claims.{IsBuilding, compiled}

-- A route dispatches to handlers of which no two overlap.
abbrev Dispatches : CompiledRoute → Type 0
Dispatches route =
    (handlers : List VersionedHandler) × (route.handler ≡ dispatching handlers)
    × IsDisjoint handlers

Among-snoc {ℓ} : {A : Type ℓ} (a x : A) (l : List A) → Among a (l ++ x ∷ []) → Among a l ⊎ (x ≡ a)
Among-snoc a _ [] among_first = inr refl
Among-snoc a x [] (among_later there) = elim there [ ]
Among-snoc a x (_ ∷ l) among_first = inl among_first
Among-snoc a x (y ∷ l) (among_later there) = elim (Among-snoc a x l there) [
  | inl before ↦ inl (among_later before)
  | inr same ↦ inr same
]

append_groups-Dispatches :
    (groups : OrderedDict Key (List VersionedHandler)) (b : Builder) (route : CompiledRoute)
    → Entries IsGroup groups
    → Among route (append_groups groups b).routes
    → Among route b.routes ⊎ Dispatches route
unfolding append_groups append
append_groups-Dispatches [] b route fine there = inl there
append_groups-Dispatches (((method, path), handlers) ∷ groups) b route fine there =
    let grown =
      append path (owner_of_first handlers) (dispatching handlers) (map contract_of handlers) b in
    elim (append_groups-Dispatches groups grown route fine.1 there) [
      | inr found ↦ inr found
      | inl appended ↦ elim (Among-snoc route _ b.routes appended) [
        | inl before ↦ inl before
        | inr same ↦ inr (subst Dispatches same (handlers, refl, fine.0.disjoint))
      ]
    ]

pub build-Dispatches :
    (options : VersioningOptions) (b : Builder) (route : CompiledRoute)
    → kind_dispatches options.kind ≡ true
    → IsHeld b
    → Among route (build (some options) b)
    → Dispatches route
unfolding build
build-Dispatches options b route dispatched held there =
    elim (append_groups-Dispatches b.versioned b route held.groups (
      subst (λ q. Among route (if q then (append_groups b.versioned b).routes else b.routes))
        dispatched there)) [
          | inl before ↦ absurd (elim (subst (Among route) held.unrouted before) [ ])
          | inr found ↦ found
        ]

dispatching-injective : (l m : List VersionedHandler) → dispatching l ≡ dispatching m → l ≡ m
dispatching-injective l m e = cc

-- In a plan compiled for versions in a header or in the media type, where no handler of a route is
-- neutral, a request of a version is served by a handler exactly if the handler is one of the
-- route's and has the version, in whatever order they were declared.
pub compile_route_plan-dispatch :
    (options : VersioningOptions) (contracts : List RouteContract) (routes : List CompiledRoute)
    (route : CompiledRoute) (handlers : List VersionedHandler) (v : Text) (h : VersionedHandler)
    → kind_dispatches options.kind ≡ true
    → compile_route_plan (some options) contracts ≡ ok routes
    → Among route routes
    → route.handler ≡ dispatching handlers
    → All IsVersioned handlers
    → (dispatch handlers (some v) ≡ some h) ↔ (Among h handlers × (contains h.versions v ≡ true))
compile_route_plan-dispatch options contracts routes route handlers v h dispatched e there own
      versioned =
    let (b, fine, built) = compiled (some options) contracts routes e in
    let (found, same, disjoint) =
      build-Dispatches options b route dispatched (subst (λ q. IsBuilding q b) dispatched fine)
        (subst (Among route) (sym built) there) in
    dispatch_iff handlers h v
      (subst IsDisjoint (dispatching-injective found handlers (sym same ∙ own)) disjoint) versioned
