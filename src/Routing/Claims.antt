-- ===== src/Routing/Claims.antt =====
-- A route plan that is compiled serves no method and path twice.
use bustan.Prelude.{
  ◌≡◌, refl, sym, ap, subst, ◌∙◌, Bool, true, false, ◌||◌, Option, none, some, List, [], ◌∷◌, ◌++◌,
  ◌==◌, list_eq, nat_eq, pair_eq, Text, contains, without, map, All, Bool-cases, Option-cases, inl,
  inr, beq_refl, ok, ◌>>=◌, bind-ok, ok-injective, arith,
}
use mathlib.Core.List.{append_assoc, append-nil}
use bustan.OrderedDict.{OrderedDict, get, set, has_key}
use bustan.OrderedDict.Values.{Entries}
use bustan.OrderedDict.Distinct.{HasDistinctKeys, set-HasDistinctKeys}
use bustan.Routing.Versioning.{VersioningOptions, VersioningType, uri, in_header, media_type}
use bustan.Routing.Contracts.{RouteContract}
use bustan.Routing.Plan.{
  VersionedHandler, serving, dispatching, CompiledRoute, Builder, new_builder, unique, method_of,
  contract_of, owner_of_first, append, claim, claim_path, claim_paths, build_uri_paths, add,
  add_versioned, add_all, append_groups, kind_dispatches, is_dispatched, build, checked,
  compile_route_plan,
}
use bustan.Routing.Groups.{Key, IsKeyed, IsGroup, IsHeld, hold_version-IsHeld}

abbrev pub keys {ℓ} : {V : Type ℓ} → OrderedDict Key V → List Key
keys [] = []
keys ((k, v) ∷ d) = k ∷ keys d

abbrev pub AreDistinct : List Key → Type 0
AreDistinct [] = Unit
AreDistinct (k ∷ l) = (contains l k ≡ false) × AreDistinct l

abbrev with_path : Text → List Text → List Key
with_path path [] = []
with_path path (method ∷ methods) = (method, path) ∷ with_path path methods

-- The methods and paths that the routes serve.
abbrev pub served : List CompiledRoute → List Key
served [] = []
served (route ∷ routes) = with_path route.path route.methods ++ served routes

served-append : (l m : List CompiledRoute) → served (l ++ m) ≡ served l ++ served m
served-append [] m = refl
served-append (r ∷ l) m =
    ap (λ s. with_path r.path r.methods ++ s) (served-append l m)
    ∙ sym (append_assoc (with_path r.path r.methods) (served l) (served m))

contains-keys {ℓ} :
    {V : Type ℓ} (k : Key) (d : OrderedDict Key V) → contains (keys d) k ≡ has_key k d
unfolding has_key
contains-keys k [] = refl
contains-keys k ((i, w) ∷ d) = ap (λ b. i == k || b) (contains-keys k d)

HasDistinctKeys-AreDistinct {ℓ} :
    {V : Type ℓ} (d : OrderedDict Key V) → HasDistinctKeys d → AreDistinct (keys d)
HasDistinctKeys-AreDistinct [] distinct = tt
HasDistinctKeys-AreDistinct ((k, v) ∷ d) distinct =
    (contains-keys k d ∙ distinct.0, HasDistinctKeys-AreDistinct d distinct.1)

keys-set_new {ℓ} :
    {V : Type ℓ} (k : Key) (v : V) (d : OrderedDict Key V)
    → get k d ≡ none
    → keys (set k v d) ≡ keys d ++ k ∷ []
unfolding get set
keys-set_new k v [] absent = refl
keys-set_new k v ((i, w) ∷ d) absent = elim (Bool-cases (i == k)) [
  | inl same ↦ absurd (ground (arith, absent, same))
  | inr other ↦ rw (other) (ap (λ l. i ∷ l) (keys-set_new k v d (ground (arith, absent, other))))
]

-- Without a dispatcher, the builder has claimed exactly what its routes serve.
pub record IsClaimed (b : Builder) : Type 0 where
  pub claimed : keys b.seen_routes ≡ served b.routes
  pub distinct : HasDistinctKeys b.seen_routes

abbrev claimed_as : Key → Text → Builder → Builder
claimed_as key owner b = record b { seen_routes = set key owner b.seen_routes }

claim-ok :
    (key : Key) (owner : Text) (b after : Builder)
    → claim key owner b ≡ ok after
    → (get key b.seen_routes ≡ none) × (claimed_as key owner b ≡ after)
unfolding claim
claim-ok key owner b after e = elim (Option-cases (get key b.seen_routes)) [
  | inr (existing, found) ↦ absurd (ground (arith, found, e))
  | inl absent ↦ (absent, ground (arith, absent, e))
]

claim_path-IsClaimed :
    (contract : RouteContract) (path : Text) (b after : Builder)
    → IsClaimed b
    → claim_path contract path b ≡ ok after
    → IsClaimed after
unfolding claim_path append unique without
claim_path-IsClaimed contract path b after fine e =
    let key : Key = (contract.method, path) in
    let (mid, first, second) =
      bind-ok (claim key contract.owner b)
        (λ (m : Builder). ok (append path contract.owner (serving contract) (contract ∷ []) m))
        after e in
    let (absent, stored) = claim-ok key contract.owner b mid first in
    let now : append path contract.owner (serving contract) (contract ∷ [])
          (claimed_as key contract.owner b)
        ≡ after =
      ap (append path contract.owner (serving contract) (contract ∷ [])) stored
      ∙ ok-injective _ _ second in
    subst IsClaimed now (record {
      claimed =
          keys-set_new key contract.owner b.seen_routes absent
          ∙ ap (λ l. l ++ key ∷ []) fine.claimed
          ∙ sym (served-append b.routes _);
      distinct = set-HasDistinctKeys key contract.owner b.seen_routes fine.distinct;
    })

claim_paths-IsClaimed :
    (contract : RouteContract) (paths : List Text) (b after : Builder)
    → IsClaimed b
    → claim_paths contract paths b ≡ ok after
    → IsClaimed after
unfolding claim_paths
claim_paths-IsClaimed contract [] b after fine e = subst IsClaimed (ok-injective _ _ e) fine
claim_paths-IsClaimed contract (path ∷ paths) b after fine e =
    let (mid, first, second) =
      bind-ok (claim_path contract path b) (λ (m : Builder). claim_paths contract paths m) after
        e in
    claim_paths-IsClaimed contract paths mid after
      (claim_path-IsClaimed contract path b mid fine first) second

abbrev pub IsBuilding : Bool → Builder → Type 0
IsBuilding true b = IsHeld b
IsBuilding false b = IsClaimed b

by_kind :
    (kind : VersioningType) (options : VersioningOptions) (contract : RouteContract)
    (b after : Builder)
    → IsBuilding (kind_dispatches kind) b
    → add_versioned kind options contract b ≡ ok after
    → IsBuilding (kind_dispatches kind) after
by_kind uri options contract b after fine e =
    claim_paths-IsClaimed contract (build_uri_paths contract.path contract.versions options) b after
      fine e
by_kind in_header options contract b after fine e = hold_version-IsHeld contract b after fine e
by_kind media_type options contract b after fine e = hold_version-IsHeld contract b after fine e

add-IsBuilding :
    (versioning : Option VersioningOptions) (contract : RouteContract) (b after : Builder)
    → IsBuilding (is_dispatched versioning) b
    → add versioning contract b ≡ ok after
    → IsBuilding (is_dispatched versioning) after
unfolding add
add-IsBuilding none contract b after fine e =
    claim_path-IsClaimed contract contract.path b after fine e
add-IsBuilding (some options) contract b after fine e =
    by_kind options.kind options contract b after fine e

pub add_all-IsBuilding :
    (versioning : Option VersioningOptions) (contracts : List RouteContract) (b after : Builder)
    → IsBuilding (is_dispatched versioning) b
    → add_all versioning contracts b ≡ ok after
    → IsBuilding (is_dispatched versioning) after
unfolding add_all
add_all-IsBuilding versioning [] b after fine e =
    subst (IsBuilding (is_dispatched versioning)) (ok-injective _ _ e) fine
add_all-IsBuilding versioning (contract ∷ contracts) b after fine e =
    let (mid, first, second) =
      bind-ok (add versioning contract b) (λ (m : Builder). add_all versioning contracts m) after
        e in
    add_all-IsBuilding versioning contracts mid after
      (add-IsBuilding versioning contract b mid fine first) second

without_constant :
    (m : Text) (texts : List Text) → All (λ t. t ≡ m) texts → without m (unique texts) ≡ []
unfolding without unique
without_constant m [] same = refl
without_constant m (t ∷ texts) same =
    let equal : (t == m) ≡ true = subst (λ q. (q == m) ≡ true) (sym same.0) (beq_refl m) in
    rw equal (
      ap (λ q. without m (without q (unique texts))) same.0
      ∙ ap (without m) (without_constant m texts same.1))

unique_constant :
    (m t : Text) (texts : List Text) → All (λ t. t ≡ m) (t ∷ texts) → unique (t ∷ texts) ≡ m ∷ []
unfolding unique
unique_constant m t texts same =
    subst (λ q. q ∷ without q (unique texts) ≡ m ∷ []) (sym same.0)
      (ap (λ l. m ∷ l) (without_constant m texts same.1))

group_same :
    (key : Key) (handlers : List VersionedHandler)
    → All (IsKeyed key) handlers
    → All (λ t. t ≡ key.0) (map method_of (map contract_of handlers))
group_same key [] keyed = tt
group_same key (h ∷ handlers) keyed = (keyed.0.0, group_same key handlers keyed.1)

group_methods :
    (key : Key) (handlers : List VersionedHandler)
    → IsGroup key handlers
    → unique (map method_of (map contract_of handlers)) ≡ key.0 ∷ []
unfolding unique
group_methods key [] group = absurd group.nonempty
group_methods key (h ∷ handlers) group =
    unique_constant key.0 (method_of h.contract) (map method_of (map contract_of handlers))
      (group_same key (h ∷ handlers) group.keyed)

append_groups-served :
    (groups : OrderedDict Key (List VersionedHandler)) (b : Builder)
    → Entries IsGroup groups
    → served (append_groups groups b).routes ≡ served b.routes ++ keys groups
unfolding append_groups append
append_groups-served [] b fine = sym (append-nil (served b.routes))
append_groups-served (((method, path), handlers) ∷ groups) b fine =
    let contracts = map contract_of handlers in
    let grown = append path (owner_of_first handlers) (dispatching handlers) contracts b in
    let one : served grown.routes ≡ served b.routes ++ (method, path) ∷ [] =
      served-append b.routes _
      ∙ ap (λ l. served b.routes ++ (with_path path l ++ []))
          (group_methods (method, path) handlers fine.0) in
    append_groups-served groups grown fine.1
    ∙ ap (λ l. l ++ keys groups) one
    ∙ append_assoc (served b.routes) ((method, path) ∷ []) (keys groups)

build-AreDistinct :
    (versioning : Option VersioningOptions) (b : Builder) (dispatched : Bool)
    → is_dispatched versioning ≡ dispatched
    → IsBuilding dispatched b
    → AreDistinct (served (build versioning b))
unfolding build
build-AreDistinct versioning b true same held = rw same (
    subst AreDistinct
      (sym (
        append_groups-served b.versioned b held.groups
        ∙ ap (λ l. served l ++ keys b.versioned) held.unrouted))
      (HasDistinctKeys-AreDistinct b.versioned held.distinct))
build-AreDistinct versioning b false same fine =
    rw same
      (subst AreDistinct fine.claimed (HasDistinctKeys-AreDistinct b.seen_routes fine.distinct))

new_builder-IsBuilding : (dispatched : Bool) → IsBuilding dispatched new_builder
new_builder-IsBuilding true = record { unrouted = refl; distinct = tt; groups = tt }
new_builder-IsBuilding false = record { claimed = refl; distinct = tt }

pub compiled :
    (versioning : Option VersioningOptions) (contracts : List RouteContract)
    (routes : List CompiledRoute)
    → compile_route_plan versioning contracts ≡ ok routes
    → (b : Builder) × IsBuilding (is_dispatched versioning) b × (build versioning b ≡ routes)
unfolding compile_route_plan
compiled versioning contracts routes e =
    let (u, passed, added) =
      bind-ok (checked versioning contracts)
        (λ (u : Unit {0}).
          add_all versioning contracts new_builder >>= λ (b : Builder). ok (build versioning b))
        routes e in
    let (b, went, built) =
      bind-ok (add_all versioning contracts new_builder) (λ (b : Builder). ok (build versioning b))
        routes added in
    (
      b,
      add_all-IsBuilding versioning contracts new_builder b
          (new_builder-IsBuilding (is_dispatched versioning)) went,
      ok-injective _ _ built,
    )

-- A plan that is compiled serves no method and path by two routes, with any versioning: without one,
-- under the versions' own paths, or through dispatchers.
pub compile_route_plan-AreDistinct :
    (versioning : Option VersioningOptions) (contracts : List RouteContract)
    (routes : List CompiledRoute)
    → compile_route_plan versioning contracts ≡ ok routes
    → AreDistinct (served routes)
compile_route_plan-AreDistinct versioning contracts routes e =
    let (b, fine, built) = compiled versioning contracts routes e in
    subst (λ l. AreDistinct (served l)) built
      (build-AreDistinct versioning b (is_dispatched versioning) refl fine)
